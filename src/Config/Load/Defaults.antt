-- ===== src/Config/Load/Defaults.antt =====
-- The defaults of `Load` of service/internal/config/config.go: `env`, and the issuer of Google.
use kube_argus.Base.{
  String, ◌==◌, ◌≡◌, refl, true, false, ◌⊎◌, inl, inr, ◌↔◌, arith, Bool-cases, eq_iff,
}
use kube_argus.Base.Dict.{Dict}
use kube_argus.Config.Environ.{getenv, env}
use kube_argus.Config.Load.{IdpConfig, default_issuer}
use kube_argus.Config.Load.Validate.{Given}

pub env-Given : (e : Dict String) (k d : String) → Given d → Given (env e k d)
unfolding env
env-Given e k d h = ground arith

-- A variable with a default has another value than its default only if it was given it.
pub env_default :
    (e : Dict String) (k d : String)
    → (env e k d == d) ≡ true
    → ((getenv e k == "") ≡ true) ⊎ ((getenv e k == d) ≡ true)
unfolding env
env_default e k d h = ground arith

pub default_env :
    (e : Dict String) (k d : String)
    → ((getenv e k == "") ≡ true) ⊎ ((getenv e k == d) ≡ true)
    → (env e k d == d) ≡ true
unfolding env
default_env e k d h = ground (arith, eq_iff d d)

pub env_other :
    (e : Dict String) (k d x : String)
    → (d == x) ≡ false
    → (env e k d == x) ≡ true
    → (getenv e k == x) ≡ true
unfolding env
env_other e k d x n h = ground arith

pub other_env :
    (e : Dict String) (k d x : String)
    → ("" == x) ≡ false
    → (getenv e k == x) ≡ true
    → (env e k d == x) ≡ true
unfolding env
other_env e k d x n h = ground (arith, eq_iff (getenv e k) x, eq_iff (getenv e k) "")

module _ (i : IdpConfig) where
  pub default_issuer-kind : (default_issuer i).kind ≡ i.kind
  unfolding default_issuer
  default_issuer-kind = ground arith

  pub default_issuer-claim : (default_issuer i).groups_claim ≡ i.groups_claim
  unfolding default_issuer
  default_issuer-claim = ground arith

  pub default_issuer-admin : (default_issuer i).google_delegated_admin ≡ i.google_delegated_admin
  unfolding default_issuer
  default_issuer-admin = ground arith

  pub default_issuer-client : (default_issuer i).client_id ≡ i.client_id
  unfolding default_issuer
  default_issuer-client = ground arith

  pub default_issuer-secret : (default_issuer i).client_secret ≡ i.client_secret
  unfolding default_issuer
  default_issuer-secret = ground arith

  pub default_issuer-redirect : (default_issuer i).redirect_url ≡ i.redirect_url
  unfolding default_issuer
  default_issuer-redirect = ground arith

  pub default_issuer-Given :
      Given (default_issuer i).issuer ↔ (Given i.issuer ⊎ ((i.kind == "google") ≡ true))
  unfolding default_issuer
  default_issuer-Given = elim (Bool-cases (i.kind == "google")) [
    | inr k ↦ ground arith
    | inl k ↦ elim (Bool-cases (i.issuer == "")) [
      | inr g ↦ ground arith
      | inl g ↦ rw (k, g) (λ h. inr refl, λ h. refl)
    ]
  ]
