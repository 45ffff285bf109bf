-- ===== src/Config/Split/Joined.antt =====
-- `splitCSV` of service/internal/config/config.go reads back what `strings.Join` writes.
use Prim.Native.Char.{Char, code, char}
use Prim.Native.String.append
use kube_argus.Base.{
  is_space, ℕ, String, ◌≡◌, refl, sym, ap, ◌∙◌, true, false, List, [], ◌∷◌, All, arith, nat_eq, inl,
  inr, Bool-cases, if◌then◌else◌, ◌<>◌, nat_eq_iff,
}
use kube_argus.Config.Split.{
  push, split, trim_left, trim_right, trim_space, keep_items, split_csv, starts_spaced, ends_spaced,
  holds, IsItem, join,
}

trim_left-id : (s : String) → starts_spaced s ≡ false → trim_left s ≡ s
unfolding trim_left
trim_left-id String.[] h = refl
trim_left-id (String.◌∷◌ c s) h = ground arith

ends_spaced-tail :
    (c : Char) (s : String) → ends_spaced (String.◌∷◌ c s) ≡ false → ends_spaced s ≡ false
unfolding ends_spaced
ends_spaced-tail c String.[] h = refl
ends_spaced-tail c (String.◌∷◌ d s) h = h

trim_right-id : (s : String) → ends_spaced s ≡ false → trim_right s ≡ s
unfolding trim_right
trim_right-id String.[] h = refl
trim_right-id (String.◌∷◌ c s) h =
    rw (trim_right-id s (ends_spaced-tail c s h)) (unfold ends_spaced in ground arith)

trim_space-id : (s : String) → IsItem s → trim_space s ≡ s
unfolding trim_space
trim_space-id s I = rw (trim_left-id s I.starts) (trim_right-id s I.ends)

-- One space before the first part makes no difference.
keep_items-push :
    (c : Char) (p : String) (ps : List String)
    → is_space (code c) ≡ true
    → keep_items (push c (p ∷ ps)) ≡ keep_items (p ∷ ps)
unfolding keep_items push trim_space trim_left
keep_items-push c p ps h = rw (h, if◌then◌else◌) refl

keep_items-item :
    (p : String) (ps : List String) → IsItem p → keep_items (p ∷ ps) ≡ p ∷ keep_items ps
unfolding keep_items
keep_items-item p ps I = rw (trim_space-id p I, I.nonempty, if◌then◌else◌) refl

-- A character that is not the separator.
module _ (sep : ℕ) (c : Char) (s : String) where
  holds-head : holds sep (String.◌∷◌ c s) ≡ false → nat_eq (code c) sep ≡ false
  unfolding holds
  holds-head h = ground arith

  holds-tail : holds sep (String.◌∷◌ c s) ≡ false → holds sep s ≡ false
  unfolding holds
  holds-tail h = ground arith

  split-other : nat_eq (code c) sep ≡ false → split sep (String.◌∷◌ c s) ≡ push c (split sep s)
  unfolding split
  split-other h = rw (h, if◌then◌else◌) refl

  split-sep : code c ≡ sep → split sep (String.◌∷◌ c s) ≡ "" ∷ split sep s
  unfolding split
  split-sep h = rw ((nat_eq_iff (code c) sep).1 h, if◌then◌else◌) refl

split-lone : (sep : ℕ) (p : String) → holds sep p ≡ false → split sep p ≡ p ∷ []
split-lone sep String.[] h = unfold split in refl
split-lone sep (String.◌∷◌ c p) h =
    rw (split-other sep c p (holds-head sep c p h), split-lone sep p (holds-tail sep c p h))
      (unfold push in refl)

split-append :
    (sep : ℕ) (c : Char) (p s : String)
    → code c ≡ sep
    → holds sep p ≡ false
    → split sep (p <> String.◌∷◌ c s) ≡ p ∷ split sep s
split-append sep c String.[] s e h =
    ap (split sep) (append.nil (String.◌∷◌ c s)) ∙ split-sep sep c s e
split-append sep c (String.◌∷◌ d p) s e h =
    ap (split sep) (append.cons d p (String.◌∷◌ c s))
    ∙ split-other sep d (p <> String.◌∷◌ c s) (holds-head sep d p h)
    ∙ ap (push d) (split-append sep c p s e (holds-tail sep d p h))
    ∙ (unfold push in refl)

-- The entries of a text, without the test for the empty one, which makes no difference.
split_csv-keep_items : (s : String) → split_csv s ≡ keep_items (split b',' s)
unfolding split_csv split keep_items trim_space trim_left trim_right
split_csv-keep_items String.[] = refl
split_csv-keep_items (String.◌∷◌ c s) = refl

push-cons : (c : Char) (l : List String) → (p : String) × (ps : List String) × (push c l ≡ p ∷ ps)
unfolding push
push-cons c [] = (_, _, refl)
push-cons c (p ∷ ps) = (_, _, refl)

split-cons : (sep : ℕ) (s : String) → (p : String) × (ps : List String) × (split sep s ≡ p ∷ ps)
split-cons sep String.[] = ("", [], unfold split in refl)
split-cons sep (String.◌∷◌ c s) = elim (Bool-cases (nat_eq (code c) sep)) [
  | inl h ↦ ("", split sep s, split-sep sep c s ((nat_eq_iff (code c) sep).0 h))
  | inr h ↦ let (p, ps, e) = push-cons c (split sep s) in (p, ps, split-other sep c s h ∙ e)
]

comma_space : (s : String) → ", " <> s ≡ String.◌∷◌ (char 0x2c tt) (String.◌∷◌ (char 0x20 tt) s)
comma_space s =
    append.cons (char 0x2c tt) " " s
    ∙ ap (String.◌∷◌ (char 0x2c tt))
        (append.cons (char 0x20 tt) "" s ∙ ap (String.◌∷◌ (char 0x20 tt)) (append.nil s))

keep_items-spaced :
    (s : String) → keep_items (split b',' (String.◌∷◌ (char 0x20 tt) s)) ≡ keep_items (split b',' s)
keep_items-spaced s =
    let (p, ps, e) = split-cons b',' s in
    ap keep_items (split-other b',' (char 0x20 tt) s refl ∙ ap (push (char 0x20 tt)) e)
    ∙ keep_items-push (char 0x20 tt) p ps (unfold is_space in refl)
    ∙ ap keep_items (sym e)

keep_items-nil : keep_items [] ≡ []
unfolding keep_items
keep_items-nil = refl

keep_items-join : (ps : List String) → All IsItem ps → keep_items (split b',' (join ", " ps)) ≡ ps
unfolding join
keep_items-join [] h = unfold split keep_items trim_space trim_left trim_right in refl
keep_items-join (p ∷ []) (I, _) =
    ap keep_items (split-lone b',' p I.no_comma)
    ∙ keep_items-item p [] I
    ∙ ap (λ t. p ∷ t) keep_items-nil
keep_items-join (p ∷ q ∷ ps) (I, h) =
    ap (λ t. keep_items (split b',' (p <> t))) (comma_space (join ", " (q ∷ ps)))
    ∙ ap keep_items (split-append b',' (char 0x2c tt) p _ refl I.no_comma)
    ∙ keep_items-item p _ I
    ∙ ap (λ t. p ∷ t) (keep_items-spaced (join ", " (q ∷ ps)) ∙ keep_items-join (q ∷ ps) h)

-- Entries that are not empty, hold no comma and neither begin nor end with a space are read back
-- from their list with a comma and a space between any two, in their order.
pub split_csv-join : (ps : List String) → All IsItem ps → split_csv (join ", " ps) ≡ ps
split_csv-join ps h = split_csv-keep_items (join ", " ps) ∙ keep_items-join ps h
