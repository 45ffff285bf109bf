-- ===== src/Config/Load/Validate.antt =====
-- What `validate` of service/internal/config/config.go accepts.
use kube_argus.Base.{
  String, ◌==◌, ◌≡◌, refl, sym, ◌∙◌, true, false, Bool, List, [], ◌∷◌, is_empty, ◌⊎◌, inl, inr, ◌↔◌,
  Result, ok, err, arith, Bool-cases, ◌≢◌, eq_iff, if◌then◌else◌, ◌<>◌, Result-cases,
}
use kube_argus.Config.Split.{join}
use kube_argus.Config.Load.{
  Settings, IdpConfig, StoreConfig, require, require_any, missing_of, check_store, check_idp,
  validate,
}

-- A text that is not empty.
abbrev pub Given : String → Type 0
Given s = (s == "") ≡ false

abbrev pub Listed : List String → Type 0
Listed l = is_empty l ≡ false

-- The provider is one of the two, with what it needs.
abbrev pub ProviderValid : IdpConfig → Type 0
ProviderValid i =
    (((i.kind == "oidc") ≡ true) × Given i.groups_claim)
    ⊎ (((i.kind == "google") ≡ true) × Given i.google_delegated_admin)

-- The backend is one of the two, with what it needs.
abbrev pub BackendValid : StoreConfig → Type 0
BackendValid s =
    ((s.backend == "memory") ≡ true) ⊎ (((s.backend == "redis") ≡ true) × Given s.redis_addr)

pub record Valid (c : Settings) : Type 0 where
  pub issuer : Given c.issuer
  pub idp_issuer : Given c.idp.issuer
  pub idp_client_id : Given c.idp.client_id
  pub idp_client_secret : Given c.idp.client_secret
  pub idp_redirect_url : Given c.idp.redirect_url
  pub client_id : Given c.client_id
  pub redirect_uris : Listed c.redirect_uris
  pub allowed_domains : Listed c.allowed_domains
  pub provider : ProviderValid c.idp
  pub backend : BackendValid c.store

require-empty :
    (name val : String) (m : List String)
    → (is_empty (require name val m) ≡ true) ↔ (Given val × (is_empty m ≡ true))
unfolding require
require-empty name val [] = ground arith
require-empty name val (x ∷ m) = ground arith

require_any-empty :
    (name : String) (vals m : List String)
    → (is_empty (require_any name vals m) ≡ true) ↔ (Listed vals × (is_empty m ≡ true))
unfolding require_any
require_any-empty name vals [] = ground arith
require_any-empty name vals (x ∷ m) = ground arith

and_then : {A B P Q : Type 0} → A ↔ (P × B) → B ↔ Q → A ↔ (P × Q)
and_then f g = (λ a. let (p, b) = f.0 a in (p, g.0 b), λ x. f.1 (x.0, g.1 x.1))

require-lone : (name val : String) → (is_empty (require name val []) ≡ true) ↔ Given val
unfolding require
require-lone name val = ground arith

abbrev Required : Settings → Type 0
Required c =
    Listed c.allowed_domains
    × (Listed c.redirect_uris
        × (Given c.client_id
            × (Given c.idp.redirect_url
                × (Given c.idp.client_secret
                    × (Given c.idp.client_id × (Given c.idp.issuer × Given c.issuer))))))

missing_of-empty : (c : Settings) → (is_empty (missing_of c) ≡ true) ↔ Required c
unfolding missing_of
missing_of-empty c = and_then (require_any-empty "ALLOWED_DOMAINS" c.allowed_domains _) (
    and_then (require_any-empty "REDIRECT_URIS" c.redirect_uris _) (
      and_then (require-empty "CLIENT_ID" c.client_id _) (
        and_then (require-empty "IDP_REDIRECT_URL" c.idp.redirect_url _) (
          and_then (require-empty "IDP_CLIENT_SECRET" c.idp.client_secret _) (
            and_then (require-empty "IDP_CLIENT_ID" c.idp.client_id _) (
              and_then (require-empty "IDP_ISSUER" c.idp.issuer _)
                (require-lone "ISSUER" c.issuer)))))))

apart : (s x y : String) → x ≢ y → (s == x) ≡ true → (s == y) ≡ true → ⊥
apart s x y d p q = d (sym ((eq_iff s x).0 p) ∙ (eq_iff s y).0 q)

oidc-google : ◌≢◌ {A = String} "oidc" "google"
oidc-google = ground (arith, eq_iff "oidc" "google")

-- A switch on two names, each with a test.
switch_iff :
    (a g b h : Bool) (m n o : String)
    → (a ≡ true → b ≡ true → ⊥)
    → ◌≡◌ {A = Result String (Unit {0})}
        (if a
          then (if g then err m else ok tt)
          else if b
          then (if h then err n else ok tt)
          else err o)
        (ok tt)
      ↔ (((a ≡ true) × (g ≡ false)) ⊎ ((b ≡ true) × (h ≡ false)))
switch_iff a g b h m n o d = ground arith

module _ (quoted : String → String) where
  check_idp_iff : (i : IdpConfig) → (check_idp quoted i ≡ ok tt) ↔ ProviderValid i
  unfolding check_idp
  check_idp_iff i =
      switch_iff (i.kind == "oidc") (i.groups_claim == "") (i.kind == "google")
        (i.google_delegated_admin == "") _ _ _ (apart i.kind "oidc" "google" oidc-google)

  check_store_iff : (s : StoreConfig) → (check_store quoted s ≡ ok tt) ↔ BackendValid s
  unfolding check_store
  check_store_iff s = ground arith

  validate-missing :
      (c : Settings)
      → is_empty (missing_of c) ≡ false
      → validate quoted c ≡ err ("missing required config: " <> join ", " (missing_of c))
  unfolding validate
  validate-missing c h = rw (h, if◌then◌else◌) refl

  validate-idp :
      (c : Settings) (e : String)
      → is_empty (missing_of c) ≡ true
      → check_idp quoted c.idp ≡ err e
      → validate quoted c ≡ err e
  unfolding validate
  validate-idp c e h g = rw (h, g, if◌then◌else◌) refl

  validate-store :
      (c : Settings)
      → is_empty (missing_of c) ≡ true
      → check_idp quoted c.idp ≡ ok tt
      → validate quoted c ≡ check_store quoted c.store
  unfolding validate
  validate-store c h g = rw (h, g, if◌then◌else◌) refl

  err-ok : (e : String) (r : Result String (Unit {0})) → r ≡ err e → r ≡ ok tt → ⊥
  err-ok e r p q = ground arith

  Required-Valid :
      (c : Settings) → Required c → ProviderValid c.idp → BackendValid c.store → Valid c
  Required-Valid c (a, (b, (d, (f, (g, (h, (i, j))))))) p s = record {
    issuer = j;
    idp_issuer = i;
    idp_client_id = h;
    idp_client_secret = g;
    idp_redirect_url = f;
    client_id = d;
    redirect_uris = b;
    allowed_domains = a;
    provider = p;
    backend = s;
  }

  validate-Valid : (c : Settings) → validate quoted c ≡ ok tt → Valid c
  validate-Valid c h = elim (Bool-cases (is_empty (missing_of c))) [
    | inr m ↦ absurd (err-ok _ _ (validate-missing c m) h)
    | inl m ↦ elim (Result-cases (check_idp quoted c.idp)) [
      | inr (e, g) ↦ absurd (err-ok e _ (validate-idp c e m g) h)
      | inl g ↦
          Required-Valid c ((missing_of-empty c).0 m) ((check_idp_iff c.idp).0 g)
            ((check_store_iff c.store).0 (sym (validate-store c m g) ∙ h))
    ]
  ]

  Valid-validate : (c : Settings) → Valid c → validate quoted c ≡ ok tt
  Valid-validate c V =
      validate-store c
        ((missing_of-empty c).1 (
          V.allowed_domains,
          (
            V.redirect_uris,
            (
              V.client_id,
              (
                V.idp_redirect_url,
                (V.idp_client_secret, (V.idp_client_id, (V.idp_issuer, V.issuer))),
              ),
            ),
          ),
        ))
        ((check_idp_iff c.idp).1 V.provider)
      ∙ (check_store_iff c.store).1 V.backend

  -- The validation accepts exactly the configurations that name an issuer, a client, the four
  -- settings of the provider, a redirect URI and an allowed domain, whose provider is oidc with a
  -- groups claim or google with a delegated admin, and whose store is memory, or redis with an
  -- address.
  pub validate_iff : (c : Settings) → (validate quoted c ≡ ok tt) ↔ Valid c
  validate_iff c = (validate-Valid c, Valid-validate c)
