-- ===== src/Config/Environ/Decimal.antt =====
-- `envInt` of service/internal/config/config.go reads a number that is printed in decimal.
use kube_argus.Base.{
  none, Bool-cases, ℕ, zero, suc, ◌+◌, ◌-◌, ◌*◌, ◌/◌, ◌%◌, ◌^◌, ◌≤◌, ◌<◌, String, ◌==◌, ◌≡◌, ◌≢◌,
  refl, sym, ap, ◌∙◌, true, false, some, List, [], ◌∷◌, ◌++◌, All, runes, AllAscii, runes-text_of,
  digits_from, decimal, ltb, arith, inl, inr, Bool-cases, if◌then◌else◌, ℤ, pos, text_cases,
}
use kube_argus.Base.Dict.{Dict}
use kube_argus.Config.Environ.{getenv, digits, magnitude, atoi, env_int}

abbrev pub IsDigit : ℕ → Type 0
IsDigit r = (b'0' ≤ r) × (r ≤ b'9')

All-snoc : (rs : List ℕ) (r : ℕ) → All IsDigit rs → IsDigit r → All IsDigit (rs ++ (r ∷ []))
All-snoc [] r h d = (d, tt)
All-snoc (q ∷ rs) r (h, hs) d = (h, All-snoc rs r hs d)

digits-snoc :
    (rs : List ℕ) (r a m : ℕ)
    → IsDigit r
    → digits rs a ≡ some m
    → digits (rs ++ (r ∷ [])) a ≡ some (m * 10 + (r - b'0'))
unfolding digits
digits-snoc [] r a m d h = ground arith
digits-snoc (q ∷ rs) r a m d h = ground (arith, digits-snoc rs r (a * 10 + (q - b'0')) m d)

digits_from-small : (f n : ℕ) → n < 10 → digits_from (suc f) n ≡ (n + b'0') ∷ []
unfolding digits_from
digits_from-small f n h = ground arith

digits_from-large :
    (f n : ℕ) → 10 ≤ n → digits_from (suc f) n ≡ digits_from f (n / 10) ++ ((n % 10 + b'0') ∷ [])
unfolding digits_from
digits_from-large f n h = ground arith

digits_from-IsDigit : (f n : ℕ) → All IsDigit (digits_from f n)
digits_from-IsDigit zero n = unfold digits_from in tt
digits_from-IsDigit (suc f) n = elim (Bool-cases (ltb n 10)) [
  | inl h ↦ rw (digits_from-small f n (ground arith)) (ground arith)
  | inr h ↦ rw (digits_from-large f n (ground arith)) (
      All-snoc (digits_from f (n / 10)) (n % 10 + b'0') (digits_from-IsDigit f (n / 10))
        (omega arith))
]

digits-digits_from : (f n : ℕ) → n < f → digits (digits_from f n) 0 ≡ some n
digits-digits_from zero n h = absurd (omega arith)
digits-digits_from (suc f) n h = elim (Bool-cases (ltb n 10)) [
  | inl g ↦ rw (digits_from-small f n (ground arith)) (unfold digits in ground arith)
  | inr g ↦ rw (digits_from-large f n (ground arith)) (
      digits-snoc (digits_from f (n / 10)) (n % 10 + b'0') 0 (n / 10) (omega arith)
        (digits-digits_from f (n / 10) (ground arith))
      ∙ ap some (omega arith))
]

AllDigit-AllAscii : (rs : List ℕ) → All IsDigit rs → AllAscii rs
AllDigit-AllAscii [] h = tt
AllDigit-AllAscii (r ∷ rs) ((l, u), hs) = (omega arith, AllDigit-AllAscii rs hs)

runes-decimal : (n : ℕ) → runes (decimal n) ≡ digits_from (suc n) n
unfolding decimal
runes-decimal n =
    runes-text_of (digits_from (suc n) n)
      (AllDigit-AllAscii (digits_from (suc n) n) (digits_from-IsDigit (suc n) n))

atoi-digits :
    (rs : List ℕ) (n : ℕ)
    → rs ≢ []
    → All IsDigit rs
    → digits rs 0 ≡ some n
    → n < 2 ^ 63
    → atoi rs ≡ some (pos n)
atoi-digits [] n ne h d l = absurd (ne refl)
atoi-digits (r ∷ rs) n ne ((a, b), hs) d l = unfold atoi magnitude in ground arith

decimal-ne : (n : ℕ) → runes (decimal n) ≢ []
decimal-ne n e = elim (Bool-cases (ltb n 10)) [
  | inl h ↦
      let p = sym (digits_from-small n n (ground arith)) ∙ sym (runes-decimal n) ∙ e in ground arith
  | inr h ↦
      snoc-ne (digits_from n (n / 10)) (n % 10 + b'0')
        (sym (digits_from-large n n (ground arith)) ∙ sym (runes-decimal n) ∙ e)
]
  where
    snoc-ne : (rs : List ℕ) (r : ℕ) → rs ++ (r ∷ []) ≢ []
    snoc-ne [] r h = ground arith
    snoc-ne (q ∷ rs) r h = ground arith

atoi-decimal : (n : ℕ) → n < 2 ^ 63 → atoi (runes (decimal n)) ≡ some (pos n)
atoi-decimal n l =
    atoi-digits (runes (decimal n)) n (decimal-ne n)
      (rw (runes-decimal n) (digits_from-IsDigit (suc n) n))
      (ap (λ rs. digits rs 0) (runes-decimal n) ∙ digits-digits_from (suc n) n (omega arith)) l

-- A variable that is set to a number is not empty.
pub decimal-Given : (n : ℕ) → (decimal n == "") ≡ false
decimal-Given n = elim (text_cases (decimal n) "") [
  | inl (_, p) ↦ absurd (decimal-ne n (ap runes p))
  | inr (q, _) ↦ q
]

env_int-parsed :
    (e : Dict String) (key : String) (def : ℤ) (n : ℤ)
    → (getenv e key == "") ≡ false
    → atoi (runes (getenv e key)) ≡ some n
    → env_int e key def ≡ n
unfolding env_int
env_int-parsed e key def n g h = rw (g, h, if◌then◌else◌) refl

pub env_int-unset :
    (e : Dict String) (key : String) (def : ℤ)
    → (getenv e key == "") ≡ true
    → env_int e key def ≡ def
unfolding env_int
env_int-unset e key def g = rw (g, if◌then◌else◌) refl

-- A value that `strconv.Atoi` does not take is as if it were not set.
pub env_int-invalid :
    (e : Dict String) (key : String) (def : ℤ)
    → atoi (runes (getenv e key)) ≡ none
    → env_int e key def ≡ def
unfolding env_int
env_int-invalid e key def h = elim (Bool-cases (getenv e key == "")) [
  | inl g ↦ rw (g, if◌then◌else◌) refl
  | inr g ↦ rw (g, h, if◌then◌else◌) refl
]

pub env_int-decimal :
    (e : Dict String) (key : String) (def : ℤ) (n : ℕ)
    → getenv e key ≡ decimal n
    → n < 2 ^ 63
    → env_int e key def ≡ pos n
env_int-decimal e key def n h l =
    env_int-parsed e key def (pos n) (ap (λ v. v == "") h ∙ decimal-Given n)
      (ap (λ v. atoi (runes v)) h ∙ atoi-decimal n l)
