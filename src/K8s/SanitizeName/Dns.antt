-- ===== src/K8s/SanitizeName/Dns.antt =====
-- The names that `SanitizeName` gives, step by step through the function.
use kube_argus.Base.{ℕ, ◌≤◌, ◌<◌, ◌≡◌, refl, ◌⊎◌, inl, inr, String, Bool, true, false}
use kube_argus.Base.{List, [], ◌∷◌, map, arith, length, take, All, All-take, length-take, runes}
use kube_argus.Base.{runes-text_of, AllAscii, is_empty, nat_eq, ltb, Bool-cases}
use kube_argus.K8s.SanitizeName.{
  to_lower, is_alnum, dash, write_rune, trim_left, trim_right, trim, fit, or_user, sanitize,
  sanitize_name,
}

-- A letter, a digit or a dash.
abbrev pub IsNameRune : ℕ → Type 0
IsNameRune r = (is_alnum r ≡ true) ⊎ (r ≡ dash)

abbrev pub first_is_dash : List ℕ → Bool
first_is_dash [] = false
first_is_dash (r ∷ rs) = nat_eq r dash

abbrev pub last_is_dash : List ℕ → Bool
last_is_dash [] = false
last_is_dash (r ∷ []) = nat_eq r dash
last_is_dash (r ∷ q ∷ rs) = last_is_dash (q ∷ rs)

-- What DNS-1123 asks of a label, with the length of a subdomain.
pub record IsDnsName (name : List ℕ) : Type 0 where
  pub nonempty : is_empty name ≡ false
  pub short : length name ≤ 253
  pub allowed : All IsNameRune name
  pub begins : first_is_dash name ≡ false
  pub ends : last_is_dash name ≡ false

write_rune-IsNameRune : (r : ℕ) → IsNameRune (write_rune r)
unfolding write_rune
write_rune-IsNameRune r = ground arith

All-map-write_rune : (rs : List ℕ) → All IsNameRune (map write_rune rs)
All-map-write_rune [] = tt
All-map-write_rune (r ∷ rs) = (write_rune-IsNameRune r, All-map-write_rune rs)

All-trim_left : (P : ℕ → Type 0) (rs : List ℕ) → All P rs → All P (trim_left rs)
unfolding trim_left
All-trim_left P [] h = tt
All-trim_left P (r ∷ rs) (h, hs) = ground (arith, All-trim_left P rs hs)

All-trim_right : (P : ℕ → Type 0) (rs : List ℕ) → All P rs → All P (trim_right rs)
unfolding trim_right
All-trim_right P [] h = tt
All-trim_right P (r ∷ rs) (h, hs) = ground (arith, All-trim_right P rs hs)

length-trim_left-le : (rs : List ℕ) → length (trim_left rs) ≤ length rs
unfolding trim_left
length-trim_left-le [] = omega arith
length-trim_left-le (r ∷ rs) = ground (arith, length-trim_left-le rs)

length-trim_right-le : (rs : List ℕ) → length (trim_right rs) ≤ length rs
unfolding trim_right
length-trim_right-le [] = omega arith
length-trim_right-le (r ∷ rs) = ground (arith, length-trim_right-le rs)

first-trim_left : (rs : List ℕ) → first_is_dash (trim_left rs) ≡ false
unfolding trim_left
first-trim_left [] = refl
first-trim_left (r ∷ rs) = ground (arith, first-trim_left rs)

first-trim_right : (rs : List ℕ) → first_is_dash rs ≡ false → first_is_dash (trim_right rs) ≡ false
unfolding trim_right
first-trim_right [] h = refl
first-trim_right (r ∷ rs) h = ground arith

-- Putting a rune in front of a list that ends well.
last-cons :
    (r : ℕ) (rs : List ℕ)
    → last_is_dash rs ≡ false
    → (nat_eq r dash ≡ true → is_empty rs ≡ false)
    → last_is_dash (r ∷ rs) ≡ false
last-cons r [] h k = elim (Bool-cases (nat_eq r dash)) [ inl e ↦ cc (k e) | inr e ↦ e ]
last-cons r (q ∷ rs) h k = h

last-trim_right : (rs : List ℕ) → last_is_dash (trim_right rs) ≡ false
unfolding trim_right
last-trim_right [] = refl
last-trim_right (r ∷ rs) = elim (Bool-cases (nat_eq r dash)) [
  | inl e ↦ elim (Bool-cases (is_empty (trim_right rs))) [
    | inl f ↦ rw (e, f) refl
    | inr f ↦ rw (e, f) (last-cons r (trim_right rs) (last-trim_right rs) (λ _. f))
  ]
  | inr e ↦ rw e (last-cons r (trim_right rs) (last-trim_right rs) (λ d. cc (e, d)))
]

-- What every step after the loop keeps: allowed runes and no dash at either end.
record IsTrimmed (rs : List ℕ) : Type 0 where
  allowed : All IsNameRune rs
  begins : first_is_dash rs ≡ false
  ends : last_is_dash rs ≡ false

trim-IsTrimmed : (rs : List ℕ) → All IsNameRune rs → IsTrimmed (trim rs)
unfolding trim
trim-IsTrimmed rs h = record {
  allowed = All-trim_right IsNameRune (trim_left rs) (All-trim_left IsNameRune rs h);
  begins = first-trim_right (trim_left rs) (first-trim_left rs);
  ends = last-trim_right (trim_left rs);
}

length-trim-le : (rs : List ℕ) → length (trim rs) ≤ length rs
unfolding trim
length-trim-le rs = omega (arith, length-trim_left-le rs, length-trim_right-le (trim_left rs))

length-trim-take : (n : ℕ) (rs : List ℕ) → length (trim (take n rs)) ≤ n
length-trim-take n rs = omega (arith, length-trim-le (take n rs), length-take n rs)

fit-IsTrimmed : (rs : List ℕ) → IsTrimmed rs → IsTrimmed (fit rs)
unfolding fit
fit-IsTrimmed rs t = elim (Bool-cases (ltb 253 (length rs))) [
  | inl e ↦ rw e (trim-IsTrimmed (take 253 rs) (All-take IsNameRune 253 rs t.allowed))
  | inr e ↦ rw e t
]

le_of_not_ltb : (a b : ℕ) → ltb a b ≡ false → b ≤ a
le_of_not_ltb a b h = ground arith

length-fit : (rs : List ℕ) → length (fit rs) ≤ 253
unfolding fit
length-fit rs = elim (Bool-cases (ltb 253 (length rs))) [
  | inl e ↦ rw e (length-trim-take 253 rs)
  | inr e ↦ rw e (le_of_not_ltb 253 (length rs) e)
]

or_user-IsDnsName : (rs : List ℕ) → IsTrimmed rs → length rs ≤ 253 → IsDnsName (or_user rs)
unfolding or_user
or_user-IsDnsName [] t s = ground arith
or_user-IsDnsName (r ∷ rs) t s = record {
  nonempty = refl;
  short = s;
  allowed = t.allowed;
  begins = t.begins;
  ends = t.ends;
}

sanitize-IsDnsName : (rs : List ℕ) → IsDnsName (sanitize rs)
unfolding sanitize
sanitize-IsDnsName rs =
    let loop : List ℕ = map write_rune (map to_lower rs) in
    or_user-IsDnsName (fit (trim loop))
      (fit-IsTrimmed (trim loop) (trim-IsTrimmed loop (All-map-write_rune (map to_lower rs))))
      (length-fit (trim loop))

ascii_of_name_rune : (r : ℕ) → IsNameRune r → r < 128
ascii_of_name_rune r h = ground arith

pub AllAscii-names : (rs : List ℕ) → All IsNameRune rs → AllAscii rs
AllAscii-names [] h = tt
AllAscii-names (r ∷ rs) (h, hs) = (ascii_of_name_rune r h, AllAscii-names rs hs)

runes-sanitize_name : (email : String) → runes (sanitize_name email) ≡ sanitize (runes email)
unfolding sanitize_name
runes-sanitize_name email =
    runes-text_of (sanitize (runes email))
      (AllAscii-names (sanitize (runes email)) (sanitize-IsDnsName (runes email)).allowed)

-- Whatever the email, the name has at most 253 characters and the form of a DNS-1123 name: not empty,
-- made of lower-case letters, digits and dashes, with no dash at either end.
pub sanitize_name-IsDnsName : (email : String) → IsDnsName (runes (sanitize_name email))
sanitize_name-IsDnsName email = rw runes-sanitize_name (sanitize-IsDnsName (runes email))
