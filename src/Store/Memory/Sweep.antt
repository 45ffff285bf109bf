-- ===== src/Store/Memory/Sweep.antt =====
-- The background sweep, and that no caller can see it.
use kube_argus.Base.{ℕ, ◌≤◌, ◌≡◌, refl, ◌∙◌, String, Option, none, some}
use kube_argus.Base.{[], ◌∷◌, arith, ltb, if◌then◌else◌, keep_if, eq_iff}
use kube_argus.Base.Dict.{Dict, lookup, insert, remove, lookup-insert, lookup-remove, NodupKeys}
use kube_argus.Store.Types.{Entry, fetch}
use kube_argus.Store.Memory.{sweep_map}

-- Two maps answer alike from the time `now` on.
abbrev pub Agree : {V : Type 0} → ℕ → Dict (Entry V) → Dict (Entry V) → Type 0
Agree now m n = (t : ℕ) (k : String) → now ≤ t → fetch t (lookup k m) ≡ fetch t (lookup k n)

-- The entry of a key after a sweep.
abbrev fresh_at : {V : Type 0} → ℕ → Option (Entry V) → Option (Entry V)
fresh_at now none = none
fresh_at now (some e) = if ltb e.exp now then none else some e

module _ {V : Type 0} where
  lookup-sweep_map :
      (now : ℕ) (k : String) (m : Dict (Entry V))
      → NodupKeys m
      → lookup k (sweep_map now m) ≡ fresh_at now (lookup k m)
  unfolding sweep_map keep_if lookup
  lookup-sweep_map now k [] u = refl
  lookup-sweep_map now k ((j, e) ∷ m) (fresh, u) =
      ground (arith, lookup-sweep_map now k m u, eq_iff j k)

  pub sweep_map-NodupKeys :
      (now : ℕ) (m : Dict (Entry V)) → NodupKeys m → NodupKeys (sweep_map now m)
  unfolding sweep_map keep_if
  sweep_map-NodupKeys now [] u = tt
  sweep_map-NodupKeys now ((j, e) ∷ m) (fresh, u) =
      ground (arith, sweep_map-NodupKeys now m u, lookup-sweep_map now j m u)

  fetch-fresh_at :
      (now t : ℕ) (e : Option (Entry V)) → now ≤ t → fetch t (fresh_at now e) ≡ fetch t e
  unfolding fetch
  fetch-fresh_at now t none h = refl
  fetch-fresh_at now t (some e) h = ground arith

  pub sweep_map-Agree :
      (now : ℕ) (m n : Dict (Entry V)) → NodupKeys m → Agree now m n → Agree now (sweep_map now m) n
  sweep_map-Agree now m n u a t k h =
      rw (lookup-sweep_map now k m u) (fetch-fresh_at now t (lookup k m) h) ∙ a t k h

  pub Agree-later :
      (now later : ℕ) (m n : Dict (Entry V)) → now ≤ later → Agree now m n → Agree later m n
  Agree-later now later m n h a t k i = a t k (omega arith)

  pub insert-Agree :
      (now : ℕ) (k : String) (e : Entry V) (m n : Dict (Entry V))
      → Agree now m n
      → Agree now (insert k e m) (insert k e n)
  insert-Agree now k e m n a t j h = rw (lookup-insert, lookup-insert) (ground (arith, a t j h))

  pub remove-Agree :
      (now : ℕ) (k : String) (m n : Dict (Entry V))
      → Agree now m n
      → Agree now (remove k m) (remove k n)
  remove-Agree now k m n a t j h = rw (lookup-remove, lookup-remove) (ground (arith, a t j h))
