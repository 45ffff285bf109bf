-- ===== src/Store/Redis/Keys.antt =====
-- The keys of service/internal/store/redis.go do not clash.
use text.Mathlib.TextLemmas.{append_cancel_left}
use kube_argus.Base.{
  ℕ, ◌≡◌, ◌≢◌, refl, sym, ap, ◌∙◌, inl, inr, String, ◌<>◌, ◌==◌, false, List, [], ◌∷◌, arith, runes,
  runes-append, text_cases, eq_refl,
}

pub same_prefix : (p k j : String) → (p <> k == p <> j) ≡ (k == j)
same_prefix p k j = elim (text_cases k j) [
  | inl (q, e) ↦ rw (e, eq_refl j, eq_refl (p <> j)) refl
  | inr (q, n) ↦ elim (text_cases (p <> k) (p <> j)) [
    | inl (r, e) ↦ absurd (n (append_cancel_left p k j e))
    | inr (r, m) ↦ r ∙ sym q
  ]
]

-- The first code point, or 0.
first : List ℕ → ℕ
first [] = 0
first (r ∷ rs) = r

first_of : (p k : String) (c : ℕ) (cs : List ℕ) → runes p ≡ c ∷ cs → first (runes (p <> k)) ≡ c
unfolding first
first_of p k c cs h = rw (runes-append p k, h) refl

apart :
    (p q k j : String) (c d : ℕ) (cs ds : List ℕ)
    → runes p ≡ c ∷ cs
    → runes q ≡ d ∷ ds
    → c ≢ d
    → (p <> k == q <> j) ≡ false
apart p q k j c d cs ds hp hq n = elim (text_cases (p <> k) (q <> j)) [
  | inr (r, m) ↦ r
  | inl (r, e) ↦
      absurd (n (sym (first_of p k c cs hp) ∙ ap (λ s. first (runes s)) e ∙ first_of q j d ds hq))
]

pub auth_code : (k j : String) → ("auth:" <> k == "code:" <> j) ≡ false
auth_code k j = apart "auth:" "code:" k j _ _ _ _ refl refl (λ e. ground arith)

pub auth_refresh : (k j : String) → ("auth:" <> k == "refresh:" <> j) ≡ false
auth_refresh k j = apart "auth:" "refresh:" k j _ _ _ _ refl refl (λ e. ground arith)

pub code_auth : (k j : String) → ("code:" <> k == "auth:" <> j) ≡ false
code_auth k j = apart "code:" "auth:" k j _ _ _ _ refl refl (λ e. ground arith)

pub code_refresh : (k j : String) → ("code:" <> k == "refresh:" <> j) ≡ false
code_refresh k j = apart "code:" "refresh:" k j _ _ _ _ refl refl (λ e. ground arith)

pub refresh_auth : (k j : String) → ("refresh:" <> k == "auth:" <> j) ≡ false
refresh_auth k j = apart "refresh:" "auth:" k j _ _ _ _ refl refl (λ e. ground arith)

pub refresh_code : (k j : String) → ("refresh:" <> k == "code:" <> j) ≡ false
refresh_code k j = apart "refresh:" "code:" k j _ _ _ _ refl refl (λ e. ground arith)
