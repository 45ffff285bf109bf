-- ===== src/Broker/Token/Exchange.antt =====
-- The exchange of a code at /token, of service/internal/broker/handlers.go: who gets the tokens, and
-- that a code works once.
use kube_argus.Base.{
  ℕ, ◌≡◌, refl, sym, ap, ◌∙◌, ◌⊎◌, inl, inr, String, ◌==◌, true, false, if◌then◌else◌, Option, none,
  arith, ok, Outcome-cases, Bool-cases, eq_iff, eq_refl,
}
use kube_argus.Config.{Config}
use kube_argus.Store.Types.{CodeGrant, fetch}
use kube_argus.Store.Contract.{Store, IsStore, update}
use kube_argus.Broker.Types.{TokenRequest, Response, tokens, oauth_error}
use kube_argus.Broker.Env.{Env}
use kube_argus.Broker.Steps.{
  client_id_of, secret_of, valid_client_secret, verify_pkce, write_token_response,
}
use kube_argus.Broker.Session.{State}
use kube_argus.Broker.Token.{secret_missing, is_granted_to, redeem, handle_auth_code}

-- No secret is configured, or the request has it.
abbrev pub KnowsSecret : Config → TokenRequest → Type 0
KnowsSecret c r = (c.client_secret ≡ "") ⊎ (secret_of r ≡ c.client_secret)

pub secret_missing-KnowsSecret :
    (c : Config) (r : TokenRequest) → secret_missing c r ≡ false → KnowsSecret c r
unfolding secret_missing valid_client_secret
secret_missing-KnowsSecret c r h = elim (Bool-cases (c.client_secret == "")) [
  | inl e ↦ inl ((eq_iff c.client_secret "").0 e)
  | inr n ↦ elim (Bool-cases (secret_of r == c.client_secret)) [
    | inl e ↦ inr ((eq_iff (secret_of r) c.client_secret).0 e)
    | inr m ↦ ground arith
  ]
]

-- The request is the one that the grant is for.
pub record Entitled (E : Env) (c : Config) (r : TokenRequest) (g : CodeGrant) : Type 0 where
  pub client : client_id_of r ≡ g.client_id
  pub redirect : r.redirect_uri ≡ g.redirect_uri
  pub secret : KnowsSecret c r
  pub pkce : E.s256 r.code_verifier ≡ g.code_challenge

-- The tokens of the grant.
abbrev pub granted : CodeGrant → Response
granted g = write_token_response g.access_token g.id_token g.refresh_token g.expires_in

module _ (E : Env) (c : Config) where
  redeem-tests :
      (r : TokenRequest) (g : CodeGrant) (a i : String) (f : Option String) (x : ℕ)
      → redeem E c r g ≡ tokens a i f x
      → (is_granted_to g r ≡ true)
        × (secret_missing c r ≡ false)
        × (verify_pkce E r.code_verifier g.code_challenge ≡ true)
        × (redeem E c r g ≡ granted g)
  unfolding redeem
  redeem-tests r g a i f x h = elim (Bool-cases (is_granted_to g r)) [
    | inr n ↦ ground arith
    | inl n ↦ elim (Bool-cases (secret_missing c r)) [
      | inl s ↦ ground arith
      | inr s ↦ elim (Bool-cases (verify_pkce E r.code_verifier g.code_challenge)) [
        | inr p ↦ ground arith
        | inl p ↦ (n, s, p, ground arith)
      ]
    ]
  ]

  granted_to :
      (g : CodeGrant) (r : TokenRequest)
      → is_granted_to g r ≡ true
      → (client_id_of r ≡ g.client_id) × (r.redirect_uri ≡ g.redirect_uri)
  unfolding is_granted_to
  granted_to g r h = elim (Bool-cases (client_id_of r == g.client_id)) [
    | inr n ↦ ground arith
    | inl n ↦ elim (Bool-cases (r.redirect_uri == g.redirect_uri)) [
      | inr m ↦ ground arith
      | inl m ↦
          ((eq_iff (client_id_of r) g.client_id).0 n, (eq_iff r.redirect_uri g.redirect_uri).0 m)
    ]
  ]

  pkce_path : (v k : String) → verify_pkce E v k ≡ true → E.s256 v ≡ k
  unfolding verify_pkce
  pkce_path v k h = (eq_iff (E.s256 v) k).0 h

  pub redeem-Entitled :
      (r : TokenRequest) (g : CodeGrant) (a i : String) (f : Option String) (x : ℕ)
      → redeem E c r g ≡ tokens a i f x
      → Entitled E c r g × (granted g ≡ tokens a i f x)
  redeem-Entitled r g a i f x h =
      let (n, s, p, e) = redeem-tests r g a i f x h in
      let (cl, re) = granted_to g r n in
      (
        record {
          client = cl;
          redirect = re;
          secret = secret_missing-KnowsSecret c r s;
          pkce = pkce_path r.code_verifier g.code_challenge p;
        },
        sym e ∙ h,
      )

module _ (S : Store) (E : Env) (c : Config) where
  pub handle-found :
      (r : TokenRequest) (st : State S E) (g : CodeGrant)
      → (S.take_code (E.clock st.world) r.code st.store).0 ≡ ok g
      → handle_auth_code S E c r st
        ≡ (redeem E c r g, record st { store = (S.take_code (E.clock st.world) r.code st.store).1 })
  unfolding handle_auth_code
  handle-found r st g p = ground arith

  found :
      (r : TokenRequest) (st : State S E) (a i : String) (f : Option String) (x : ℕ)
      → (handle_auth_code S E c r st).0 ≡ tokens a i f x
      → (g : CodeGrant) × ((S.take_code (E.clock st.world) r.code st.store).0 ≡ ok g)
  unfolding handle_auth_code
  found r st a i f x h = elim (Outcome-cases (S.take_code (E.clock st.world) r.code st.store).0) [
    | inl (g, p) ↦ (g, p)
    | inr (e, p) ↦ ground arith
  ]

  handle-missing :
      (r : TokenRequest) (st : State S E)
      → ((g : CodeGrant) → (S.take_code (E.clock st.world) r.code st.store).0 ≡ ok g → ⊥)
      → (handle_auth_code S E c r st).0 ≡ oauth_error 400 "invalid_grant" "unknown or used code"
  unfolding handle_auth_code
  handle-missing r st n = elim (Outcome-cases (S.take_code (E.clock st.world) r.code st.store).0) [
    | inl (g, p) ↦ absurd (n g p)
    | inr (e, p) ↦ ground arith
  ]

  module _ (L : IsStore S) where
    -- A grant that is stored and alive, its tokens as the answer, and the store without it.
    pub record Exchanged (r : TokenRequest) (st : State S E) (answer : Response) (st' : State S E)
        : Type 0 where
      pub grant : CodeGrant
      pub stored : fetch (E.clock st.world) ((L.view st.store).codes r.code) ≡ ok grant
      pub entitled : Entitled E c r grant
      pub answered : granted grant ≡ answer
      pub after :
          L.view st'.store
          ≡ record (L.view st.store) { codes = update r.code none (L.view st.store).codes }

    -- Tokens are answered to a code only for a grant that is stored under it and has not expired, to
    -- the client and with the redirect URI of the grant, with the configured secret if there is one,
    -- and with a verifier whose SHA-256 is the challenge of the grant. They are the tokens of the
    -- grant. The code is gone then, and nothing else has changed in the store.
    pub handle_auth_code-Exchanged :
        (r : TokenRequest) (st : State S E) (a i : String) (f : Option String) (x : ℕ)
        → (handle_auth_code S E c r st).0 ≡ tokens a i f x
        → Exchanged r st (tokens a i f x) (handle_auth_code S E c r st).1
    handle_auth_code-Exchanged r st a i f x h =
        let (g, p) = found r st a i f x h in
        let q = handle-found r st g p in
        let (t, e) = redeem-Entitled E c r g a i f x (ap (λ v. v.0) (sym q) ∙ h) in
        let (k, law) = L.take_code_law (E.clock st.world) r.code st.store g p in
        record {
          grant = g;
          stored = k;
          entitled = t;
          answered = e;
          after = ap (λ v. L.view v.1.store) q ∙ law;
        }

    -- Once a code has been found at /token, whatever the answer was, the next request with that code,
    -- whoever sends it and at whatever time, is refused.
    pub code_once :
        (r r' : TokenRequest) (st : State S E) (g : CodeGrant) (later : E.World)
        → (S.take_code (E.clock st.world) r.code st.store).0 ≡ ok g
        → r'.code ≡ r.code
        → (handle_auth_code S E c r' (record (handle_auth_code S E c r st).1 { world = later })).0
          ≡ oauth_error 400 "invalid_grant" "unknown or used code"
    code_once r r' st g later p same =
        let (k, law) = L.take_code_law (E.clock st.world) r.code st.store g p in
        let q = handle-found r st g p in
        let gone =
          ap (λ v. (L.view v.1.store).codes r'.code) q
          ∙ ap (λ v. v.codes r'.code) law
          ∙ rw (same, eq_refl r.code, if◌then◌else◌) refl in
        handle-missing r' (record (handle_auth_code S E c r st).1 { world = later })
          (λ h p'.
            L.absent_code_law (E.clock later) r'.code (handle_auth_code S E c r st).1.store gone h
              p')
