-- ===== src/Broker/Login/Callback.antt =====
-- What /callback of service/internal/broker/handlers.go has checked and written when it hands a code
-- out.
use mathlib.Core.Path.{subst}
use kube_argus.Base.{
  ℕ, ◌≡◌, refl, sym, ap, ◌∙◌, inl, inr, String, ◌+◌, true, none, List, ok, Result-cases, eq_iff,
}
use kube_argus.Config.{Config, allowed_domain}
use kube_argus.Model.{Identity}
use kube_argus.Store.Types.{AuthRequest, fetch}
use kube_argus.Store.Contract.{Store, IsStore, update, entry}
use kube_argus.Broker.Types.{CallbackQuery, Issued}
use kube_argus.Broker.Env.{Env}
use kube_argus.Broker.Steps.{unless_empty}
use kube_argus.Broker.Login.{
  refresh_grant, code_grant, code_ttl, issue_tokens, issue_code, callback,
}
use kube_argus.Broker.Session.{State, random}
use kube_argus.Broker.Login.Issue.{Issues, Keeps, issue_tokens-Issues}
use kube_argus.Broker.Login.Answers.{
  Carries, redirect_error-silent, hand_out-Carries, saved, issue_code-ok, issue_code-err,
  admit-issues, admit-Admits, taken, callback-resume, known, resume-admit, authenticated,
}

module _ (S : Store) (E : Env) (c : Config) where
  -- What /callback has checked and done when the answer carries a code, from the pending request and
  -- the state it is read in.
  pub record Admits (q : CallbackQuery) (ar : AuthRequest) (id : Identity) (t : Issued)
      (st : State S E) : Type 0 where
    pub no_error : q.error ≡ ""
    pub authenticated : (E.authenticate q.code ar.idp_nonce st.world).0 ≡ ok id
    pub verified : id.email_verified ≡ true
    pub allowed : allowed_domain E.fold c id.domain ≡ true
    pub issued :
        Issues S E c id ar.client_id ar.nonce (E.authenticate q.code ar.idp_nonce st.world).1 t

  -- Besides the request that is gone, the store has the grant of the code and that of the refresh
  -- token.
  abbrev pub Leaves :
      IsStore S → AuthRequest → Identity → Issued → String → State S E → State S E → Type 0
  Leaves L ar id t code st st' =
      (now : ℕ) × (L.view st'.store ≡ record (L.view st.store) {
        codes =
            update code (entry (code_grant S E c ar id t) (E.clock st'.world + code_ttl))
              (L.view st.store).codes;
        refresh =
            update t.refresh
              (entry (refresh_grant S E c id ar.client_id) (now + c.refresh_token_lifetime))
              (L.view st.store).refresh;
      })

  module _ (L : IsStore S) where
    issue_code-Leaves :
        (ar : AuthRequest) (id : Identity) (t : Issued) (st0 st : State S E) (u k : String)
        (ps : List (String × String))
        → Keeps S E c L id ar.client_id st0 t st
        → Carries S E c (issue_code S E c ar id t st).0 u ps k
        → (u ≡ ar.redirect_uri)
          × (ps ≡ unless_empty "state" ar.state)
          × Leaves L ar id t k st0 (issue_code S E c ar id t st).1
    issue_code-Leaves ar id t st0 st u k ps f h = elim (Result-cases (saved S E c ar id t st).0) [
      | inr (e, p) ↦ absurd (
          redirect_error-silent S E c _ _ _ _ u k ps
            (rw (issue_code-err S E c ar id t st e p) at h))
      | inl p ↦
          let q = issue_code-ok S E c ar id t st p in
          let (a, b, d) = hand_out-Carries S E c ar (random S E st).0 u k ps (rw q at h) in
          let saved_law =
            L.save_code_law (E.clock (random S E st).1.world) (random S E st).0
              (code_grant S E c ar id t) code_ttl st.store tt p in
          (a, d, (E.clock st.world, rw (q, b, saved_law, f) refl))
    ]

    -- The pending request of the answer, and the identity and the tokens behind its code.
    pub record LoggedIn (q : CallbackQuery) (st : State S E) (uri code : String)
        (ps : List (String × String)) (st' : State S E) : Type 0 where
      pub request : AuthRequest
      pub identity : Identity
      pub tokens : Issued
      pub pending : fetch (E.clock st.world) ((L.view st.store).auth q.state) ≡ ok request
      pub uri_kept : uri ≡ request.redirect_uri
      pub state_kept : ps ≡ unless_empty "state" request.state
      pub admits : Admits q request identity tokens st
      pub now : ℕ
      pub after : L.view st'.store ≡ record {
        auth = update q.state none (L.view st.store).auth;
        codes =
            update code
              (entry (code_grant S E c request identity tokens) (E.clock st'.world + code_ttl))
              (L.view st.store).codes;
        refresh =
            update tokens.refresh
              (entry
                (refresh_grant S E c identity request.client_id)
                (now + c.refresh_token_lifetime))
              (L.view st.store).refresh;
      }

    -- The states after the pending request is taken, and after the tokens are issued.
    abbrev resumed : CallbackQuery → State S E → State S E
    resumed q st = record st { store = (S.take_auth_request (E.clock st.world) q.state st.store).1 }

    abbrev issued : CallbackQuery → State S E → AuthRequest → Identity → State S E
    issued q st ar id =
        (issue_tokens S E c id ar.client_id ar.nonce (authenticated S E c q ar (resumed q st))).1

    assemble :
        (q : CallbackQuery) (st : State S E) (uri code : String) (ps : List (String × String))
        (ar : AuthRequest) (id : Identity) (t : Issued)
        → (S.take_auth_request (E.clock st.world) q.state st.store).0 ≡ ok ar
        → Admits q ar id t st
        → Keeps S E c L id ar.client_id
            (authenticated S E c q ar (resumed q st))
            t
            (issued q st ar id)
        → Carries S E c (issue_code S E c ar id t (issued q st ar id)).0 uri ps code
        → LoggedIn q st uri code ps (issue_code S E c ar id t (issued q st ar id)).1
    assemble q st uri code ps ar id t p adm keeps h =
        let (u, s, (now, leaves)) =
          issue_code-Leaves ar id t (authenticated S E c q ar (resumed q st)) (issued q st ar id)
            uri code ps keeps h in
        let (f, law) = L.take_auth_request_law (E.clock st.world) q.state st.store ar p in
        record {
          request = ar;
          identity = id;
          tokens = t;
          pending = f;
          uri_kept = u;
          state_kept = s;
          admits = adm;
          now = now;
          after = leaves ∙ rw law refl;
        }

    -- When /callback answers with a code, the login was pending and not expired, the provider sent no
    -- error and its exchange gave, for the nonce of that login, an identity with a verified email in
    -- an allowed domain; the tokens were issued for that identity, client and nonce; the answer goes
    -- to the URI and with the state of the login. The store then has the code's grant and the refresh
    -- grant, the login's entry is gone, and nothing else has changed.
    pub callback-LoggedIn :
        (q : CallbackQuery) (st : State S E) (uri code : String) (ps : List (String × String))
        → Carries S E c (callback S E c q st).0 uri ps code
        → LoggedIn q st uri code ps (callback S E c q st).1
    callback-LoggedIn q st uri code ps h =
        let (ar, p) = taken S E c q st uri code ps h in
        let e1 = callback-resume S E c q st ar p in
        let (id, n, a) = known S E c q ar (resumed q st) uri code ps (ap (λ r. r.0) (sym e1) ∙ h) in
        let e2 = e1 ∙ resume-admit S E c q ar (resumed q st) id ((eq_iff q.error "").1 n) a in
        let st2 = authenticated S E c q ar (resumed q st) in
        let (t, v, d, i) =
          admit-Admits S E c q ar id st2 uri code ps (ap (λ r. r.0) (sym e2) ∙ h) in
        let e3 = e2 ∙ admit-issues S E c ar id st2 t v d i in
        let (iss, keeps) = issue_tokens-Issues S E c L id ar.client_id ar.nonce st2 t i in
        let adm : Admits q ar id t st = record {
          no_error = n;
          authenticated = a;
          verified = v;
          allowed = d;
          issued = iss;
        } in
        subst (λ r. LoggedIn q st uri code ps r.1) (sym e3)
          (assemble q st uri code ps ar id t p adm keeps (ap (λ r. r.0) (sym e3) ∙ h))
