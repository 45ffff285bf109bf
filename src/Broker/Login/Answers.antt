-- ===== src/Broker/Login/Answers.antt =====
-- The answers of /callback of service/internal/broker/handlers.go: which of its steps answer with a
-- code.
use kube_argus.Base.{
  ◌≡◌, ◌≢◌, refl, inl, inr, String, ◌==◌, true, false, if◌then◌else◌, List, ◌∷◌, arith, Result, ok,
  err, Outcome-cases, Bool-cases, eq_iff,
}
use kube_argus.Config.{Config, allowed_domain}
use kube_argus.Model.{Identity}
use kube_argus.Store.Types.{AuthRequest, StoreError}
use kube_argus.Store.Contract.{Store}
use kube_argus.Broker.Types.{CallbackQuery, Response, redirect_with, Issued}
use kube_argus.Broker.Env.{Env}
use kube_argus.Broker.Steps.{redirect_error, unless_empty}
use kube_argus.Broker.Login.{
  code_grant, code_ttl, hand_out, issue_tokens, issue_code, admit, resume, callback,
}
use kube_argus.Broker.Session.{State, random, stored}

module _ (S : Store) (E : Env) (c : Config) where
  -- The answer carries a code.
  abbrev pub Carries : Response → String → List (String × String) → String → Type 0
  Carries r uri ps code = r ≡ redirect_with uri (("code", code) ∷ ps)

  apart : (s t : String) → (s == t) ≡ false → s ≢ t
  apart s t e p = let h = (eq_iff s t).1 p in ground arith

  injective :
      {a b v w u u' : String} {ps qs : List (String × String)}
      → redirect_with u ((a, v) ∷ ps) ≡ redirect_with u' ((b, w) ∷ qs)
      → a ≡ b
  injective h = ground arith

  error≢code : (s t : String) → s ≡ "error" → t ≡ "code" → s ≢ t
  error≢code s t p q = rw (p, q) (apart "error" "code" refl)

  pub redirect_error-silent :
      (uri state e desc u k : String) (ps : List (String × String))
      → Carries (redirect_error E uri state e desc) u ps k
      → ⊥
  unfolding redirect_error
  redirect_error-silent uri state e desc u k ps h = elim (Bool-cases (E.url_parses uri)) [
    | inl p ↦ (let h' = rw (p, if◌then◌else◌) at h in error≢code _ _ refl refl (injective h'))
    | inr p ↦ ground arith
  ]

  pub hand_out-Carries :
      (ar : AuthRequest) (code u k : String) (ps : List (String × String))
      → Carries (hand_out S E c ar code) u ps k
      → (u ≡ ar.redirect_uri) × (k ≡ code) × (ps ≡ unless_empty "state" ar.state)
  unfolding hand_out
  hand_out-Carries ar code u k ps h = ground arith

  abbrev pub saved :
      AuthRequest → Identity → Issued → State S E → Result StoreError (Unit {0}) × State S E
  saved ar id t st =
      stored S E (λ now. S.save_code now (random S E st).0 (code_grant S E c ar id t) code_ttl)
        (random S E st).1

  pub issue_code-ok :
      (ar : AuthRequest) (id : Identity) (t : Issued) (st : State S E)
      → (saved ar id t st).0 ≡ ok tt
      → issue_code S E c ar id t st ≡ (hand_out S E c ar (random S E st).0, (saved ar id t st).1)
  unfolding issue_code
  issue_code-ok ar id t st p = ground arith

  pub issue_code-err :
      (ar : AuthRequest) (id : Identity) (t : Issued) (st : State S E) (e : StoreError)
      → (saved ar id t st).0 ≡ err e
      → (issue_code S E c ar id t st).0
        ≡ redirect_error E ar.redirect_uri ar.state "server_error" "could not issue code"
  unfolding issue_code
  issue_code-err ar id t st e p = ground arith

  -- The state in which the tokens are issued.
  abbrev pub authenticated : CallbackQuery → AuthRequest → State S E → State S E
  authenticated q ar st = record st { world = (E.authenticate q.code ar.idp_nonce st.world).1 }

  pub admit-issues :
      (ar : AuthRequest) (id : Identity) (st : State S E) (t : Issued)
      → id.email_verified ≡ true
      → allowed_domain E.fold c id.domain ≡ true
      → (issue_tokens S E c id ar.client_id ar.nonce st).0 ≡ ok t
      → admit S E c ar id st
        ≡ issue_code S E c ar id t (issue_tokens S E c id ar.client_id ar.nonce st).1
  unfolding admit
  admit-issues ar id st t v d i = ground arith

  pub admit-Admits :
      (q : CallbackQuery) (ar : AuthRequest) (id : Identity) (st : State S E) (u k : String)
      (ps : List (String × String))
      → Carries (admit S E c ar id st).0 u ps k
      → (t : Issued) × (id.email_verified ≡ true)
        × (allowed_domain E.fold c id.domain ≡ true)
        × ((issue_tokens S E c id ar.client_id ar.nonce st).0 ≡ ok t)
  unfolding admit
  admit-Admits q ar id st u k ps h =
      let silent =
        redirect_error-silent ar.redirect_uri ar.state "access_denied" "domain or email not allowed"
          u k ps in
      let silent' =
        redirect_error-silent ar.redirect_uri ar.state "server_error" "could not issue tokens" u k
          ps in
      elim (Bool-cases id.email_verified) [
        | inr v ↦ ground (arith, silent)
        | inl v ↦ elim (Bool-cases (allowed_domain E.fold c id.domain)) [
          | inr d ↦ ground (arith, silent)
          | inl d ↦ elim (Outcome-cases (issue_tokens S E c id ar.client_id ar.nonce st).0) [
            | inr (e, i) ↦ ground (arith, silent')
            | inl (t, i) ↦ (t, v, d, i)
          ]
        ]
      ]

  -- The pending request was stored and had not expired.
  pub taken :
      (q : CallbackQuery) (st : State S E) (u k : String) (ps : List (String × String))
      → Carries (callback S E c q st).0 u ps k
      → (ar : AuthRequest) × ((S.take_auth_request (E.clock st.world) q.state st.store).0 ≡ ok ar)
  unfolding callback
  taken q st u k ps h =
      elim (Outcome-cases (S.take_auth_request (E.clock st.world) q.state st.store).0) [
        | inr (e, p) ↦ ground arith
        | inl (ar, p) ↦ (ar, p)
      ]

  pub callback-resume :
      (q : CallbackQuery) (st : State S E) (ar : AuthRequest)
      → (S.take_auth_request (E.clock st.world) q.state st.store).0 ≡ ok ar
      → callback S E c q st
        ≡ resume S E c ar q
            (record st { store = (S.take_auth_request (E.clock st.world) q.state st.store).1 })
  unfolding callback
  callback-resume q st ar p = ground arith

  -- The request was not refused by the provider, which knows the identity.
  pub known :
      (q : CallbackQuery) (ar : AuthRequest) (st : State S E) (u k : String)
      (ps : List (String × String))
      → Carries (resume S E c ar q st).0 u ps k
      → (id : Identity) × (q.error ≡ "") × ((E.authenticate q.code ar.idp_nonce st.world).0 ≡ ok id)
  unfolding resume
  known q ar st u k ps h =
      let silent =
        redirect_error-silent ar.redirect_uri ar.state q.error q.error_description u k ps in
      let silent' =
        redirect_error-silent ar.redirect_uri ar.state "access_denied" "authentication failed" u k
          ps in
      elim (Bool-cases (q.error == "")) [
        | inr n ↦ ground (arith, silent)
        | inl n ↦ elim (Outcome-cases (E.authenticate q.code ar.idp_nonce st.world).0) [
          | inr (e, p) ↦ ground (arith, silent')
          | inl (id, p) ↦ (id, (eq_iff q.error "").0 n, p)
        ]
      ]

  pub resume-admit :
      (q : CallbackQuery) (ar : AuthRequest) (st : State S E) (id : Identity)
      → q.error == "" ≡ true
      → (E.authenticate q.code ar.idp_nonce st.world).0 ≡ ok id
      → resume S E c ar q st ≡ admit S E c ar id (authenticated q ar st)
  unfolding resume
  resume-admit q ar st id n p = ground arith
