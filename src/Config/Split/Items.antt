-- ===== src/Config/Split/Items.antt =====
-- What the entries of `splitCSV` of service/internal/config/config.go look like.
use Prim.Native.Char.{Char, code}
use kube_argus.Base.{
  ℕ, String, ◌≡◌, refl, false, List, [], ◌∷◌, All, is_nil, arith, nat_eq, inl, inr, Bool-cases,
  if◌then◌else◌,
}
use kube_argus.Config.Split.{
  push, split, trim_left, trim_right, trim_space, keep_items, split_csv, starts_spaced, ends_spaced,
  holds, IsItem,
}

-- No part of a split holds the separator.
abbrev Lacks : ℕ → List String → Type 0
Lacks sep = All (λ p. holds sep p ≡ false)

push-Lacks :
    (sep : ℕ) (c : Char) (ps : List String)
    → nat_eq (code c) sep ≡ false
    → Lacks sep ps
    → Lacks sep (push c ps)
unfolding push holds
push-Lacks sep c [] h hs = ground arith
push-Lacks sep c (p ∷ ps) h (hp, hs) = ground arith

split-Lacks : (sep : ℕ) (s : String) → Lacks sep (split sep s)
unfolding split holds
split-Lacks sep String.[] = ground arith
split-Lacks sep (String.◌∷◌ c s) = ground (arith, split-Lacks sep s, push-Lacks sep c (split sep s))

trim_left-starts : (s : String) → starts_spaced (trim_left s) ≡ false
unfolding trim_left
trim_left-starts String.[] = refl
trim_left-starts (String.◌∷◌ c s) = ground (arith, trim_left-starts s)

trim_left-holds : (r : ℕ) (s : String) → holds r s ≡ false → holds r (trim_left s) ≡ false
unfolding trim_left holds
trim_left-holds r String.[] h = refl
trim_left-holds r (String.◌∷◌ c s) h = ground (arith, trim_left-holds r s)

trim_right-ends : (s : String) → ends_spaced (trim_right s) ≡ false
unfolding trim_right ends_spaced
trim_right-ends String.[] = refl
trim_right-ends (String.◌∷◌ c s) = ground (arith, trim_right-ends s)

trim_right-holds : (r : ℕ) (s : String) → holds r s ≡ false → holds r (trim_right s) ≡ false
unfolding trim_right holds
trim_right-holds r String.[] h = refl
trim_right-holds r (String.◌∷◌ c s) h = ground (arith, trim_right-holds r s)

trim_right-starts : (s : String) → starts_spaced s ≡ false → starts_spaced (trim_right s) ≡ false
unfolding trim_right
trim_right-starts String.[] h = refl
trim_right-starts (String.◌∷◌ c s) h = ground arith

trim_space-IsItem :
    (p : String) → holds b',' p ≡ false → is_nil (trim_space p) ≡ false → IsItem (trim_space p)
unfolding trim_space
trim_space-IsItem p h n = record {
  nonempty = n;
  no_comma = trim_right-holds b',' (trim_left p) (trim_left-holds b',' p h);
  starts = trim_right-starts (trim_left p) (trim_left-starts p);
  ends = trim_right-ends (trim_left p);
}

keep_items-IsItem : (ps : List String) → Lacks b',' ps → All IsItem (keep_items ps)
unfolding keep_items
keep_items-IsItem [] h = tt
keep_items-IsItem (p ∷ ps) (h, hs) = elim (Bool-cases (is_nil (trim_space p))) [
  | inl e ↦ rw (e, if◌then◌else◌) (keep_items-IsItem ps hs)
  | inr e ↦ rw (e, if◌then◌else◌) (trim_space-IsItem p h e, keep_items-IsItem ps hs)
]

-- Every entry of a comma-separated list is not empty, holds no comma, and neither begins nor ends
-- with a space, whatever the text of the list is.
pub split_csv-IsItem : (s : String) → All IsItem (split_csv s)
unfolding split_csv
split_csv-IsItem String.[] = tt
split_csv-IsItem (String.◌∷◌ c s) =
    keep_items-IsItem (split b',' (String.◌∷◌ c s)) (split-Lacks b',' (String.◌∷◌ c s))
