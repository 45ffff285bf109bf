-- ===== src/Idp/Oidc/Email.antt =====
-- `DomainOf` of service/internal/idp/oidc/oidc.go.
use Prim.Native.Char.{Char, char, code}
use Prim.Native.String.append
use text.Mathlib.TextEquality.{Char-path}
use kube_argus.Base.{
  String, ◌<>◌, ◌==◌, ◌≡◌, refl, sym, ap, ◌∙◌, true, false, none, some, ◌⊎◌, inl, inr, ◌↔◌, arith,
  nat_eq, nat_eq_iff, eq_iff, Bool-cases,
}
use kube_argus.Config.Split.{holds}
use kube_argus.Idp.Oidc.{after_last_at, domain_of}

abbrev at : Char
at = char 0x40 tt

-- The text ends with an at sign and the domain, which has none.
abbrev pub EndsWith : String → String → Type 0
EndsWith email d = (name : String) × (email ≡ name <> ("@" <> d)) × (holds b'@' d ≡ false)

at-append : (d : String) → "@" <> d ≡ String.◌∷◌ at d
at-append d = append.cons at "" d ∙ ap (String.◌∷◌ at) (append.nil d)

module _ (c : Char) (s : String) where
  after-later : (d : String) → after_last_at s ≡ some d → after_last_at (String.◌∷◌ c s) ≡ some d
  unfolding after_last_at
  after-later d h = ground arith

  after-here : after_last_at s ≡ none → code c ≡ b'@' → after_last_at (String.◌∷◌ c s) ≡ some s
  unfolding after_last_at
  after-here h e = ground arith

  after-none :
      after_last_at s ≡ none → nat_eq (code c) b'@' ≡ false → after_last_at (String.◌∷◌ c s) ≡ none
  unfolding after_last_at
  after-none h e = ground arith

  holds-cons :
      nat_eq (code c) b'@' ≡ false → holds b'@' s ≡ false → holds b'@' (String.◌∷◌ c s) ≡ false
  unfolding holds
  holds-cons e h = ground arith

-- No at sign, or the last one with what stands behind it.
pub last_at :
    (s : String)
    → ((after_last_at s ≡ none) × (holds b'@' s ≡ false))
      ⊎ ((d : String) × (after_last_at s ≡ some d) × EndsWith s d)
last_at String.[] = inl (unfold after_last_at in refl, unfold holds in refl)
last_at (String.◌∷◌ c s) = elim (last_at s) [
  | inr (d, h, (name, e, n)) ↦ inr (
    d,
    after-later c s d h,
    (String.◌∷◌ c name, ap (String.◌∷◌ c) e ∙ sym (append.cons c name ("@" <> d)), n),
  )
  | inl (h, n) ↦ elim (Bool-cases (nat_eq (code c) b'@')) [
    | inr f ↦ inl (after-none c s h f, holds-cons c s f n)
    | inl f ↦
        let e = (nat_eq_iff (code c) b'@').0 f in
        inr (
          s,
          after-here c s h e,
          ("", ap (λ k. String.◌∷◌ k s) (Char-path c at e) ∙ sym (append.nil _ ∙ at-append s), n),
        )
  ]
]

after_last_at-lacking : (s : String) → holds b'@' s ≡ false → after_last_at s ≡ none
unfolding after_last_at holds
after_last_at-lacking String.[] h = refl
after_last_at-lacking (String.◌∷◌ c s) h = ground (arith, after_last_at-lacking s)

after_last_at-append :
    (name d : String) → holds b'@' d ≡ false → after_last_at (name <> String.◌∷◌ at d) ≡ some d
after_last_at-append String.[] d h =
    ap after_last_at (append.nil (String.◌∷◌ at d))
    ∙ after-here at d (after_last_at-lacking d h) refl
after_last_at-append (String.◌∷◌ c name) d h =
    ap after_last_at (append.cons c name (String.◌∷◌ at d))
    ∙ after-later c (name <> String.◌∷◌ at d) d (after_last_at-append name d h)

domain_of-some : (s d : String) → after_last_at s ≡ some d → domain_of s ≡ d
unfolding domain_of
domain_of-some s d h = ground arith

domain_of-none : (s : String) → after_last_at s ≡ none → domain_of s ≡ ""
unfolding domain_of
domain_of-none s h = ground arith

-- The domain of an email is what stands behind its last at sign: it is `d`, where `d` is not empty,
-- exactly if the email ends with an at sign and `d`, and `d` has no at sign.
pub domain_of_iff :
    (email d : String) → (d == "") ≡ false → (domain_of email ≡ d) ↔ EndsWith email d
domain_of_iff email d given = (
  λ h. elim (last_at email) [
    | inl (none_at, _) ↦ absurd (
        let blank : (d == "") ≡ true = (eq_iff d "").1 (sym h ∙ domain_of-none email none_at) in
        ground arith)
    | inr (x, found, ends) ↦ rw (sym (domain_of-some email x found) ∙ h) at ends
  ],
  λ (name, e, n).
      domain_of-some email d
        (ap after_last_at (e ∙ ap (λ t. name <> t) (at-append d)) ∙ after_last_at-append name d n),
)
