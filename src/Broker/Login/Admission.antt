-- ===== src/Broker/Login/Admission.antt =====
-- Who gets past /authorize of service/internal/broker/handlers.go, and what it stores.
use mathlib.Core.Path.{subst}
use kube_argus.Base.{
  ◌≡◌, sym, inl, inr, ◌⊎◌, String, ◌==◌, ◌+◌, true, List, arith, ok, err, Bool-cases, Result,
  Result-cases, eq_iff,
}
use kube_argus.Config.{Config}
use kube_argus.Store.Types.{StoreError}
use kube_argus.Store.Contract.{Store, IsStore, update, entry}
use kube_argus.Broker.Types.{AuthorizeQuery, redirect_to, redirect_with, http_error}
use kube_argus.Broker.Env.{Env}
use kube_argus.Broker.Steps.{scope_has, redirect_error}
use kube_argus.Broker.Login.{
  auth_request, auth_request_ttl, client_allowed, pkce_given, start_login, authorize,
}
use kube_argus.Broker.Session.{State, random, stored}
use kube_argus.Broker.Login.Registered.{
  Registered, client_known, redirect_error-uri, redirect_error-stays,
}

module _ (S : Store) (E : Env) (c : Config) where
  -- The state after the two random tokens, and the save of the pending request.
  abbrev pub drawn : State S E → State S E
  drawn st = (random S E (random S E st).1).1

  -- The name under which the pending request is stored, the nonce, and the save.
  abbrev pub login_key : State S E → String
  login_key st = (random S E st).0

  abbrev pub idp_nonce : State S E → String
  idp_nonce st = (random S E (random S E st).1).0

  abbrev saved : AuthorizeQuery → State S E → Result StoreError (Unit {0}) × State S E
  saved q st =
      stored S E
        (λ now.
          S.save_auth_request now (login_key st) (auth_request S E c q (idp_nonce st))
            auth_request_ttl)
        (drawn st)

  start_login-ok :
      (q : AuthorizeQuery) (st : State S E)
      → (saved q st).0 ≡ ok tt
      → start_login S E c q st
        ≡ (redirect_to (E.auth_url (login_key st) (idp_nonce st)), (saved q st).1)
  unfolding start_login
  start_login-ok q st p = ground arith

  start_login-err :
      (q : AuthorizeQuery) (st : State S E) (e : StoreError)
      → (saved q st).0 ≡ err e
      → start_login S E c q st ≡ (
        redirect_error E q.redirect_uri q.state "server_error" "could not start login",
        (saved q st).1,
      )
  unfolding start_login
  start_login-err q st e p = ground arith

  start_login-uri :
      (q : AuthorizeQuery) (st : State S E) (u : String) (ps : List (String × String))
      → (start_login S E c q st).0 ≡ redirect_with u ps
      → u ≡ q.redirect_uri
  start_login-uri q st u ps h = elim (Result-cases (saved q st).0) [
    | inl p ↦ let h' = rw (start_login-ok q st p) at h in ground arith
    | inr (e, p) ↦
        redirect_error-uri S E c q.redirect_uri q.state "server_error" "could not start login" u ps
          (rw (start_login-err q st e p) at h)
  ]

  -- /authorize goes on to the provider, or answers with one of its errors.
  authorize-cases :
      (q : AuthorizeQuery) (st : State S E)
      → ((client_allowed S E c q ≡ true)
          × (q.response_type == "code" ≡ true)
          × (scope_has q.scope "openid" ≡ true)
          × (pkce_given S E c q ≡ true)
          × (authorize S E c q st ≡ start_login S E c q st))
        ⊎ (((client_allowed S E c q ≡ true)
              × ((e : String) × (desc : String) × (authorize S E c q st
                    ≡ (redirect_error E q.redirect_uri q.state e desc, st))))
            ⊎ (authorize S E c q st ≡ (http_error 400 "invalid client_id or redirect_uri", st)))
  unfolding authorize
  authorize-cases q st = elim (Bool-cases (client_allowed S E c q)) [
    | inr a ↦ inr (inr (ground arith))
    | inl a ↦ elim (Bool-cases (q.response_type == "code")) [
      | inr t ↦ inr (inl (a, ("unsupported_response_type", "only code is supported", ground arith)))
      | inl t ↦ elim (Bool-cases (scope_has q.scope "openid")) [
        | inr o ↦ inr (inl (a, ("invalid_scope", "openid scope required", ground arith)))
        | inl o ↦ elim (Bool-cases (pkce_given S E c q)) [
          | inr k ↦ inr (inl (a, ("invalid_request", "PKCE S256 required", ground arith)))
          | inl k ↦ inl (a, t, o, k, ground arith)
        ]
      ]
    ]
  ]

  registered :
      (q : AuthorizeQuery) (u : String)
      → client_allowed S E c q ≡ true
      → u ≡ q.redirect_uri
      → (q.client_id ≡ c.client_id) × (u ≡ q.redirect_uri) × Registered u c.redirect_uris
  registered q u a p =
      let (i, r) = client_known S E c q a in
      (i, p, subst (λ v. Registered v c.redirect_uris) (sym p) r)

  -- /authorize redirects back only to a URI that is configured, which is the one of the request, and
  -- only for the configured client.
  pub authorize-Registered :
      (q : AuthorizeQuery) (st : State S E) (u : String) (ps : List (String × String))
      → (authorize S E c q st).0 ≡ redirect_with u ps
      → (q.client_id ≡ c.client_id) × (u ≡ q.redirect_uri) × Registered u c.redirect_uris
  authorize-Registered q st u ps h = elim (authorize-cases q st) [
    | inl (a, t, o, k, e) ↦ registered q u a (start_login-uri q st u ps (rw e at h))
    | inr (inl (a, (code, desc, e))) ↦
        registered q u a
          (redirect_error-uri S E c q.redirect_uri q.state code desc u ps (rw e at h))
    | inr (inr e) ↦ let h' = rw e at h in ground arith
  ]

  start_login-saved :
      (q : AuthorizeQuery) (st : State S E) (url : String)
      → (start_login S E c q st).0 ≡ redirect_to url
      → ((saved q st).0 ≡ ok tt) × (url ≡ E.auth_url (login_key st) (idp_nonce st))
  start_login-saved q st url h = elim (Result-cases (saved q st).0) [
    | inl p ↦ (p, (let h' = rw (start_login-ok q st p) at h in ground arith))
    | inr (e, p) ↦ absurd (
        redirect_error-stays S E c q.redirect_uri q.state "server_error" "could not start login" url
          (rw (start_login-err q st e p) at h))
  ]

  module _ (L : IsStore S) where
    start_login-view :
        (q : AuthorizeQuery) (st : State S E)
        → (saved q st).0 ≡ ok tt
        → L.view (start_login S E c q st).1.store ≡ record (L.view st.store) {
          auth =
              update
                (login_key st)
                (entry
                  (auth_request S E c q (idp_nonce st))
                  (E.clock (drawn st).world + auth_request_ttl))
                (L.view st.store).auth;
        }
    start_login-view q st p = rw (start_login-ok q st p) (
        L.save_auth_request_law (E.clock (drawn st).world) (login_key st)
          (auth_request S E c q (idp_nonce st)) auth_request_ttl st.store tt p)

    -- The client and the URI are the configured ones, the request asks for what is needed, and it is
    -- pending in the store.
    pub record Pending (q : AuthorizeQuery) (st : State S E) (url : String) (st' : State S E)
        : Type 0 where
      pub client : q.client_id ≡ c.client_id
      pub redirect : Registered q.redirect_uri c.redirect_uris
      pub response_type : q.response_type ≡ "code"
      pub scope : scope_has q.scope "openid" ≡ true
      pub pkce : pkce_given S E c q ≡ true
      pub url_known : url ≡ E.auth_url (login_key st) (idp_nonce st)
      pub after : L.view st'.store ≡ record (L.view st.store) {
        auth =
            update
              (login_key st)
              (entry
                (auth_request S E c q (idp_nonce st))
                (E.clock (drawn st).world + auth_request_ttl))
              (L.view st.store).auth;
      }

    -- When /authorize sends the browser on to the provider, the client and the URI are the
    -- configured ones, a code, the scope openid and an S256 challenge were asked for, and the store
    -- has changed only by the request itself, under the random key that the provider's URL carries
    -- with the nonce, for ten minutes.
    pub authorize-Pending :
        (q : AuthorizeQuery) (st : State S E) (url : String)
        → (authorize S E c q st).0 ≡ redirect_to url
        → Pending q st url (authorize S E c q st).1
    authorize-Pending q st url h = elim (authorize-cases q st) [
      | inl (a, t, o, k, e) ↦
          let (p, u) = start_login-saved q st url (rw e at h) in
          let (i, r) = client_known S E c q a in
          record {
            client = i;
            redirect = r;
            response_type = (eq_iff q.response_type "code").0 t;
            scope = o;
            pkce = k;
            url_known = u;
            after = rw e (start_login-view q st p);
          }
      | inr (inl (a, (code, desc, e))) ↦
          absurd (redirect_error-stays S E c q.redirect_uri q.state code desc url (rw e at h))
      | inr (inr e) ↦ let h' = rw e at h in ground arith
    ]
