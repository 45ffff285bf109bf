-- ===== src/Config/Load/Sufficient.antt =====
-- When `Load` of service/internal/config/config.go succeeds, in terms of the variables.
use kube_argus.Base.{
  String, ◌==◌, ◌≡◌, refl, sym, ◌∙◌, ap, true, Option, ◌⊎◌, inl, inr, ◌↔◌, Result, ok, err, arith,
  Result-cases, ℤ,
}
use kube_argus.Base.Dict.{Dict}
use kube_argus.Config.Environ.{getenv}
use kube_argus.Config.Split.{split_csv}
use kube_argus.Config.Load.{Settings, read, default_issuer, validate, resolve, load, checked}
use kube_argus.Config.Load.Defaults.{
  env-Given, env_default, default_env, env_other, other_env, default_issuer-kind,
  default_issuer-claim, default_issuer-admin, default_issuer-client, default_issuer-secret,
  default_issuer-redirect, default_issuer-Given,
}
use kube_argus.Config.Load.Validate.{
  Given, Listed, ProviderValid, BackendValid, Valid, validate_iff,
}

-- The variables that a broker needs.
pub record Sufficient (e : Dict String) : Type 0 where
  pub issuer : Given (getenv e "ISSUER")
  pub idp_issuer : Given (getenv e "IDP_ISSUER") ⊎ ((getenv e "IDP_TYPE" == "google") ≡ true)
  pub idp_client_id : Given (getenv e "IDP_CLIENT_ID")
  pub idp_client_secret : Given (getenv e "IDP_CLIENT_SECRET")
  pub idp_redirect_url : Given (getenv e "IDP_REDIRECT_URL")
  pub client_id : Given (getenv e "CLIENT_ID")
  pub redirect_uris : Listed (split_csv (getenv e "REDIRECT_URIS"))
  pub allowed_domains : Listed (split_csv (getenv e "ALLOWED_DOMAINS"))
  pub provider :
      ((getenv e "IDP_TYPE" == "") ≡ true)
      ⊎ ((getenv e "IDP_TYPE" == "oidc") ≡ true)
      ⊎ (((getenv e "IDP_TYPE" == "google") ≡ true) × Given (getenv e "GOOGLE_DELEGATED_ADMIN"))
  pub backend :
      ((getenv e "SESSION_STORE" == "") ≡ true)
      ⊎ ((getenv e "SESSION_STORE" == "memory") ≡ true)
      ⊎ (((getenv e "SESSION_STORE" == "redis") ≡ true) × Given (getenv e "REDIS_ADDR"))

module _ (e : Dict String) where
  provider_set : ProviderValid (read e).idp ↔ (
      ((getenv e "IDP_TYPE" == "") ≡ true)
      ⊎ ((getenv e "IDP_TYPE" == "oidc") ≡ true)
      ⊎ (((getenv e "IDP_TYPE" == "google") ≡ true) × Given (getenv e "GOOGLE_DELEGATED_ADMIN")))
  unfolding read
  provider_set = ground (
    arith,
    env_default e "IDP_TYPE" "oidc",
    default_env e "IDP_TYPE" "oidc",
    env_other e "IDP_TYPE" "oidc" "google" refl,
    other_env e "IDP_TYPE" "oidc" "google" refl,
    env-Given e "IDP_GROUPS_CLAIM" "groups" refl,
  )

  backend_set : BackendValid (read e).store ↔ (
      ((getenv e "SESSION_STORE" == "") ≡ true)
      ⊎ ((getenv e "SESSION_STORE" == "memory") ≡ true)
      ⊎ (((getenv e "SESSION_STORE" == "redis") ≡ true) × Given (getenv e "REDIS_ADDR")))
  unfolding read
  backend_set = ground (
    arith,
    env_default e "SESSION_STORE" "memory",
    default_env e "SESSION_STORE" "memory",
    env_other e "SESSION_STORE" "memory" "redis" refl,
    other_env e "SESSION_STORE" "memory" "redis" refl,
  )

  issuer_set :
      Given (default_issuer (read e).idp).issuer
      ↔ (Given (getenv e "IDP_ISSUER") ⊎ ((getenv e "IDP_TYPE" == "google") ≡ true))
  unfolding read
  issuer_set = ground (
    arith,
    default_issuer-Given (read e).idp,
    env_other e "IDP_TYPE" "oidc" "google" refl,
    other_env e "IDP_TYPE" "oidc" "google" refl,
  )

  default_issuer-Valid : ProviderValid (default_issuer (read e).idp) ↔ ProviderValid (read e).idp
  default_issuer-Valid =
      rw
        (
          default_issuer-kind (read e).idp,
          default_issuer-claim (read e).idp,
          default_issuer-admin (read e).idp,
        )
        (λ x. x, λ x. x)

  -- The configuration as it is validated.
  module _ (quoted : String → String) (duration : String → Option ℤ) where
    Valid-Sufficient : Valid (resolve quoted duration e) → Sufficient e
    unfolding resolve read
    Valid-Sufficient V = record {
      issuer = V.issuer;
      idp_issuer = issuer_set.0 V.idp_issuer;
      idp_client_id = ground (arith, V.idp_client_id, default_issuer-client (read e).idp);
      idp_client_secret = ground (arith, V.idp_client_secret, default_issuer-secret (read e).idp);
      idp_redirect_url = ground (arith, V.idp_redirect_url, default_issuer-redirect (read e).idp);
      client_id = V.client_id;
      redirect_uris = V.redirect_uris;
      allowed_domains = V.allowed_domains;
      provider = provider_set.0 (default_issuer-Valid.0 V.provider);
      backend = backend_set.0 V.backend;
    }

    Sufficient-Valid : Sufficient e → Valid (resolve quoted duration e)
    unfolding resolve read
    Sufficient-Valid S = record {
      issuer = S.issuer;
      idp_issuer = issuer_set.1 S.idp_issuer;
      idp_client_id = ground (arith, S.idp_client_id, default_issuer-client (read e).idp);
      idp_client_secret = ground (arith, S.idp_client_secret, default_issuer-secret (read e).idp);
      idp_redirect_url = ground (arith, S.idp_redirect_url, default_issuer-redirect (read e).idp);
      client_id = S.client_id;
      redirect_uris = S.redirect_uris;
      allowed_domains = S.allowed_domains;
      provider = default_issuer-Valid.1 (provider_set.1 S.provider);
      backend = backend_set.1 S.backend;
    }

    load-ok :
        validate quoted (resolve quoted duration e) ≡ ok tt
        → load quoted duration e ≡ ok (resolve quoted duration e)
    unfolding load
    load-ok h = ap (checked quoted (resolve quoted duration e)) h

    load-err :
        (m : String)
        → validate quoted (resolve quoted duration e) ≡ err m
        → load quoted duration e ≡ err m
    unfolding load
    load-err m h = ap (checked quoted (resolve quoted duration e)) h

    ok-err : (s : Settings) (m : String) → ◌≡◌ {A = Result String Settings} (ok s) (err m) → ⊥
    ok-err s m h = ground arith

    ok-same : (s t : Settings) → ◌≡◌ {A = Result String Settings} (ok s) (ok t) → s ≡ t
    ok-same s t h = ground arith

    -- What is loaded is what was read, and it was validated.
    pub load-resolve :
        (s : Settings)
        → load quoted duration e ≡ ok s
        → (s ≡ resolve quoted duration e) × Valid (resolve quoted duration e)
    load-resolve s h = elim (Result-cases (validate quoted (resolve quoted duration e))) [
      | inr (m, v) ↦ absurd (ok-err s m (sym h ∙ load-err m v))
      | inl v ↦ (ok-same s _ (sym h ∙ load-ok v), (validate_iff quoted _).0 v)
    ]

    -- The configuration loads exactly when the variables that it needs are set: the issuer, the client,
    -- the provider's client, secret and redirect URL, its issuer unless it is google, a delegated admin
    -- if it is google, an address if the store is redis, and lists of redirect URIs and of domains with
    -- an entry. IDP_TYPE and SESSION_STORE are one of their two values each, or not set.
    pub load_iff : ((s : Settings) × (load quoted duration e ≡ ok s)) ↔ Sufficient e
    load_iff = (
      λ (s, h). Valid-Sufficient (load-resolve s h).1,
      λ S. (_, load-ok ((validate_iff quoted _).1 (Sufficient-Valid S))),
    )
