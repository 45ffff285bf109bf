-- ===== src/Server/Fits.antt =====
-- The parts that `run` of service/cmd/server/main.go picks fit the configuration: `New` of
-- service/internal/store/store.go and of service/internal/idp/idp.go never come to their default on one that
-- is valid.
use mathlib.Core.Path.{subst}
use kube_argus.Base.{
  String, ◌==◌, ◌≡◌, refl, sym, ap, ◌∙◌, true, false, inl, inr, Result, ok, err, arith, eq_iff,
  Outcome-cases, Bool-cases, if◌then◌else◌,
}
use kube_argus.Config.Load.{IdpConfig, StoreConfig}
use kube_argus.Config.Load.Validate.{Given, ProviderValid, BackendValid}
use kube_argus.Store.Redis.Connect.{new_redis}
use kube_argus.Idp.{Provider, oidc, google, as_oidc, as_google}
use kube_argus.Idp as Idp
use kube_argus.Idp.Made.{as_oidc-ok, as_google-ok, new-oidc, new-google}
use kube_argus.Idp.Oidc as Oidc
use kube_argus.Idp.Google as Google
use kube_argus.Server.Start.{Host, Backend, memory, redis, new_store, as_redis}

module _ (H : Host) where
  abbrev pub BackendFits : StoreConfig → Backend H → Type 0
  BackendFits s memory = (s.backend == "memory") ≡ true
  BackendFits s (redis c) = ((s.backend == "redis") ≡ true) × Given s.redis_addr

  abbrev pub ProviderFits : IdpConfig → Provider H.idp → Type 0
  ProviderFits i (oidc p) =
      ((i.kind == "oidc") ≡ true) × (p.audience ≡ i.client_id) × Given p.groups_claim
  ProviderFits i (google p) =
      ((i.kind == "google") ≡ true) × (p.audience ≡ i.client_id) × Given i.google_delegated_admin

  pub ok-same : {A : Type 0} (x y : A) (r : Result String A) → r ≡ ok x → r ≡ ok y → x ≡ y
  ok-same x y r p q = ground arith

  as_redis-ok :
      (x : Result String H.RedisClient × H.Os) (b : Backend H)
      → (as_redis H x).0 ≡ ok b
      → (c : H.RedisClient) × (redis c ≡ b)
  as_redis-ok (ok c, w) b h = (c, ground arith)
  as_redis-ok (err e, w) b h = ground arith

  new_store-redis :
      (s : StoreConfig) (w : H.Os)
      → (s.backend == "redis") ≡ true
      → new_store H s w ≡ as_redis H (new_redis H.new_client H.ping s w)
  unfolding new_store
  new_store-redis s w e = rw (e, if◌then◌else◌) refl

  new_store-memory :
      (s : StoreConfig) (w : H.Os)
      → (s.backend == "redis") ≡ false
      → new_store H s w ≡ (ok memory, w)
  unfolding new_store
  new_store-memory s w e = rw (e, if◌then◌else◌) refl

  memory_left :
      (s : StoreConfig)
      → BackendValid s
      → (s.backend == "redis") ≡ false
      → (s.backend == "memory") ≡ true
  memory_left s v e = ground arith

  redis_left :
      (s : StoreConfig) → BackendValid s → (s.backend == "redis") ≡ true → Given s.redis_addr
  redis_left s (inl m) e =
      let p : ◌≡◌ {A = String} "memory" "redis" =
        sym ((eq_iff s.backend "memory").0 m) ∙ (eq_iff s.backend "redis").0 e in
      absurd (let q = (eq_iff "memory" "redis").1 p in ground arith)
  redis_left s (inr (_, a)) e = a

  pub new_store-Fits :
      (s : StoreConfig) (w : H.Os) (b : Backend H)
      → BackendValid s
      → (new_store H s w).0 ≡ ok b
      → BackendFits s b
  new_store-Fits s w b v h = elim (Bool-cases (s.backend == "redis")) [
    | inr e ↦
        let same : memory ≡ b = ok-same memory b _ (ap (λ x. x.0) (new_store-memory s w e)) h in
        subst (BackendFits s) same (memory_left s v e)
    | inl e ↦
        let (c, same) =
          as_redis-ok (new_redis H.new_client H.ping s w) b
            (ap (λ x. x.0) (sym (new_store-redis s w e)) ∙ h) in
        subst (BackendFits s) same (e, redis_left s v e)
  ]

  oidc-audience :
      (i : IdpConfig) (w : H.idp.World) (p : Oidc.OidcProvider H.idp)
      → (Oidc.new H.idp i w).0 ≡ ok p
      → (p.audience ≡ i.client_id) × (p.groups_claim ≡ i.groups_claim)
  unfolding Oidc.new
  oidc-audience i w p h = elim (Outcome-cases (H.idp.discover i.issuer w).0) [
    | inl (x, e) ↦ ground arith
    | inr (m, e) ↦ ground arith
  ]

  directory-audience :
      (i : IdpConfig) (issuer : H.idp.Issuer) (w : H.idp.World) (p : Google.GoogleProvider H.idp)
      → (Google.with_directory H.idp i issuer w).0 ≡ ok p
      → p.audience ≡ i.client_id
  unfolding Google.with_directory
  directory-audience i issuer w p h = elim (Outcome-cases (Google.new_directory H.idp i w).0) [
    | inl (x, e) ↦ ground arith
    | inr (m, e) ↦ ground arith
  ]

  google-audience :
      (i : IdpConfig) (w : H.idp.World) (p : Google.GoogleProvider H.idp)
      → (Google.new H.idp i w).0 ≡ ok p
      → p.audience ≡ i.client_id
  unfolding Google.new
  google-audience i w p h = elim (Outcome-cases (H.idp.discover i.issuer w).0) [
    | inl (x, e) ↦ directory-audience i x (H.idp.discover i.issuer w).1 p (ground arith)
    | inr (m, e) ↦ ground arith
  ]

  oidc_left :
      (i : IdpConfig)
      → ProviderValid i
      → (i.kind == "google") ≡ false
      → ((i.kind == "oidc") ≡ true) × Given i.groups_claim
  oidc_left i v e = ground arith

  google_left :
      (i : IdpConfig)
      → ProviderValid i
      → (i.kind == "google") ≡ true
      → Given i.google_delegated_admin
  google_left i (inr (_, a)) e = a
  google_left i (inl (o, _)) e =
      let p : ◌≡◌ {A = String} "oidc" "google" =
        sym ((eq_iff i.kind "oidc").0 o) ∙ (eq_iff i.kind "google").0 e in
      absurd (let q = (eq_iff "oidc" "google").1 p in ground arith)

  pub new-Fits :
      (i : IdpConfig) (w : H.idp.World) (p : Provider H.idp)
      → ProviderValid i
      → (Idp.new H.idp H.quoted i w).0 ≡ ok p
      → ProviderFits i p
  new-Fits i w p v h = elim (Bool-cases (i.kind == "google")) [
    | inl e ↦
        let (g, made, same) =
          as_google-ok H.idp (Google.new H.idp i w) p
            (ap (λ x. x.0) (sym (new-google H.idp H.quoted i w e)) ∙ h) in
        subst (ProviderFits i) same (e, google-audience i w g made, google_left i v e)
    | inr e ↦
        let (k, claim) = oidc_left i v e in
        let (o, made, same) =
          as_oidc-ok H.idp (Oidc.new H.idp i w) p
            (ap (λ x. x.0) (sym (new-oidc H.idp H.quoted i w e k)) ∙ h) in
        let (a, c) = oidc-audience i w o made in
        subst (ProviderFits i) same (k, a, ap (λ x. x == "") c ∙ claim)
  ]
