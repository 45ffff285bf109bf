-- ===== src/Base/Dict.antt =====
-- Go maps keyed by strings, as association lists read through `lookup`.
use Prim.Native.String.{String}
use mathlib.Core.Path.{◌≡◌}
use mathlib.Core.Option.{Option, none, some}
use mathlib.Core.List.{List, [], ◌∷◌}
use native.Mathlib.Omega.{arith}
use text.Mathlib.Text.{◌==◌}
use text.Mathlib.TextEquality.{eq_iff}
use text.Mathlib.TextPositions.{eq_refl}
use kube_argus.Base.Tests.{if◌then◌else◌}

abbrev pub Dict : Type 0 → Type 0
Dict V = List (String × V)

module _ {V : Type 0} where
  -- `m[k]`, with its `ok`
  unfoldable pub lookup : String → Dict V → Option V
  lookup key [] = none
  lookup key (entry ∷ rest) =
      let later = lookup key rest in if entry.0 == key then some entry.1 else later

  -- `delete(m, k)`: every entry of the key goes
  unfoldable pub remove : String → Dict V → Dict V
  remove key [] = []
  remove key (entry ∷ rest) =
      let kept = remove key rest in if entry.0 == key then kept else entry ∷ kept

  -- `m[k] = v`: the new entry stands first, and the old one is gone
  unfoldable pub insert : String → V → Dict V → Dict V
  unfolding remove
  insert key val m = (key, val) ∷ remove key m

  pub lookup-remove :
      (k j : String) (m : Dict V) → lookup j (remove k m) ≡ (if k == j then none else lookup j m)
  unfolding lookup remove
  lookup-remove k j [] = ground arith
  lookup-remove k j ((i, w) ∷ m) =
      ground (arith, eq_iff k j, eq_iff i k, eq_iff i j, lookup-remove k j m)

  pub lookup-insert :
      (k j : String) (v : V) (m : Dict V)
      → lookup j (insert k v m) ≡ (if k == j then some v else lookup j m)
  unfolding lookup insert
  lookup-insert k j v m = ground (arith, lookup-remove k j m)

  -- No key is listed twice, as in every Go map.
  abbrev pub NodupKeys : Dict V → Type 0
  NodupKeys [] = Unit
  NodupKeys ((k, _) ∷ m) = (lookup k m ≡ none) × NodupKeys m

  pub remove-NodupKeys : (k : String) (m : Dict V) → NodupKeys m → NodupKeys (remove k m)
  unfolding remove lookup
  remove-NodupKeys k [] u = tt
  remove-NodupKeys k ((j, w) ∷ m) (fresh, u) =
      ground (arith, remove-NodupKeys k m u, lookup-remove k j m)

  pub insert-NodupKeys : (k : String) (v : V) (m : Dict V) → NodupKeys m → NodupKeys (insert k v m)
  unfolding insert
  insert-NodupKeys k v m u =
      (ground (arith, lookup-remove k k m, eq_refl k), remove-NodupKeys k m u)
