-- ===== src/Config/Split.antt =====
-- `splitCSV` of service/internal/config/config.go, with `strings.Split` at a comma, `strings.TrimSpace`
-- and `strings.Join`.
pub mod Items
pub mod Joined
use Prim.Native.Char.{Char, code}
use kube_argus.Base.{
  ◌≡◌, refl, is_nil, is_space, ℕ, String, ◌<>◌, ◌==◌, Bool, true, false, ◌&&◌, ◌||◌, List, [], ◌∷◌,
  nat_eq, leb, if◌then◌else◌,
}

-- The first part of a split, with one more character before it.
unfoldable pub push : Char → List String → List String
push c [] = String.◌∷◌ c String.[] ∷ []
push c (p ∷ ps) = String.◌∷◌ c p ∷ ps

unfoldable pub split : ℕ → String → List String
split sep String.[] = String.[] ∷ []
split sep (String.◌∷◌ c s) =
    let parts = split sep s in if nat_eq (code c) sep then String.[] ∷ parts else push c parts

unfoldable pub trim_left : String → String
trim_left String.[] = String.[]
trim_left (String.◌∷◌ c s) =
    let rest = trim_left s in if is_space (code c) then rest else String.◌∷◌ c s

unfoldable pub trim_right : String → String
trim_right String.[] = String.[]
trim_right (String.◌∷◌ c s) =
    let rest = trim_right s in
    if is_nil rest && is_space (code c) then String.[] else String.◌∷◌ c rest

unfoldable pub trim_space : String → String
trim_space s = trim_right (trim_left s)

-- The loop over the parts.
unfoldable pub keep_items : List String → List String
keep_items [] = []
keep_items (p ∷ ps) =
    let rest = keep_items ps in let t = trim_space p in if is_nil t then rest else t ∷ rest

unfoldable pub split_csv : String → List String
split_csv s = if is_nil s then [] else keep_items (split b',' s)

-- `strings.Join`
unfoldable pub join : String → List String → String
join sep [] = ""
join sep (p ∷ []) = p
join sep (p ∷ q ∷ ps) = p <> (sep <> join sep (q ∷ ps))

split_csv_example : split_csv " a@b , ,c,\td e" ≡ "a@b" ∷ "c" ∷ "d e" ∷ []
unfolding split_csv split push keep_items trim_space trim_left trim_right is_space
split_csv_example = refl

-- An entry as it is meant: a text with no comma, and no space at either end.
abbrev pub starts_spaced : String → Bool
starts_spaced String.[] = false
starts_spaced (String.◌∷◌ c s) = is_space (code c)

unfoldable pub ends_spaced : String → Bool
ends_spaced String.[] = false
ends_spaced (String.◌∷◌ c s) =
    let rest = ends_spaced s in if is_nil s then is_space (code c) else rest

unfoldable pub holds : ℕ → String → Bool
holds r String.[] = false
holds r (String.◌∷◌ c s) = let rest = holds r s in if nat_eq (code c) r then true else rest

pub record IsItem (s : String) : Type 0 where
  pub nonempty : is_nil s ≡ false
  pub no_comma : holds b',' s ≡ false
  pub starts : starts_spaced s ≡ false
  pub ends : ends_spaced s ≡ false
