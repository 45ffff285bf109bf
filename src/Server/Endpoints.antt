-- ===== src/Server/Endpoints.antt =====
-- What `Discovery` of service/internal/broker/handlers.go promises is what
-- service/internal/server/server.go routes and the handlers do.
use kube_argus.Base.{
  sym, Among, String, ◌<>◌, ◌==◌, ◌≡◌, refl, true, false, List, [], ◌∷◌, ◌⊎◌, inl, inr, arith,
  eq_iff, text_cases, if◌then◌else◌,
}
use kube_argus.Config.{Config}
use kube_argus.Store.Contract.{Store, IsStore}
use kube_argus.Broker.Types.{AuthorizeQuery, TokenRequest, redirect_to, oauth_error}
use kube_argus.Broker.Env.{Env}
use kube_argus.Broker.Discovery.{Metadata, discovery}
use kube_argus.Broker.Login.{pkce_given, authorize}
use kube_argus.Broker.Session.{State}
use kube_argus.Broker.Login.Admission.{authorize-Pending}
use kube_argus.Broker.Token.{handle_auth_code, handle_refresh, token}
use kube_argus.Server.Routes.{
  Handler, authorize_handler, token_handler, jwks_handler, discovery_handler, to, route,
}

-- The endpoint is the issuer with a path, and the path leads to the handler.
pub record ServedAt (issuer endpoint method : String) (h : Handler) : Type 0 where
  pub path : String
  pub spelled : endpoint ≡ issuer <> path
  pub routed : route method path ≡ to h

module _ (S : Store) (E : Env) (c : Config) where
  pub record Honest (L : IsStore S) (d : Metadata) : Type 0 where
    pub authorization : ServedAt d.issuer d.authorization_endpoint "GET" authorize_handler
    pub token_served : ServedAt d.issuer d.token_endpoint "POST" token_handler
    pub keys : ServedAt d.issuer d.jwks_uri "GET" jwks_handler
    pub self : route "GET" "/.well-known/openid-configuration" ≡ to discovery_handler
    pub asked :
        (q : AuthorizeQuery) (st : State S E) (url : String)
        → (authorize S E c q st).0 ≡ redirect_to url
        → Among q.response_type d.response_types_supported
          × Among q.code_challenge_method d.code_challenge_methods_supported
    pub granted :
        (r : TokenRequest) (st : State S E)
        → r.form_parses ≡ true
        → Among r.grant_type d.grant_types_supported
        → ((r.grant_type ≡ "authorization_code") × (token S E c r st ≡ handle_auth_code S E c r st))
          ⊎ ((r.grant_type ≡ "refresh_token") × (token S E c r st ≡ handle_refresh S E c r st))
    pub code_granted : Among "authorization_code" d.grant_types_supported
    pub refresh_granted : Among "refresh_token" d.grant_types_supported
    pub refused :
        (r : TokenRequest) (st : State S E)
        → r.form_parses ≡ true
        → (Among r.grant_type d.grant_types_supported → ⊥)
        → token S E c r st ≡ (oauth_error 400 "unsupported_grant_type" "", st)

  method_known : (q : AuthorizeQuery) → pkce_given S E c q ≡ true → q.code_challenge_method ≡ "S256"
  unfolding pkce_given
  method_known q h = (eq_iff q.code_challenge_method "S256").0 (ground arith)

  token-code :
      (r : TokenRequest) (st : State S E)
      → r.form_parses ≡ true
      → r.grant_type ≡ "authorization_code"
      → token S E c r st ≡ handle_auth_code S E c r st
  unfolding token
  token-code r st f g = rw (f, g, if◌then◌else◌) refl

  token-refresh :
      (r : TokenRequest) (st : State S E)
      → r.form_parses ≡ true
      → r.grant_type ≡ "refresh_token"
      → token S E c r st ≡ handle_refresh S E c r st
  unfolding token
  token-refresh r st f g = rw (f, g, if◌then◌else◌) refl

  token-refused :
      (r : TokenRequest) (st : State S E)
      → r.form_parses ≡ true
      → (r.grant_type == "authorization_code") ≡ false
      → (r.grant_type == "refresh_token") ≡ false
      → token S E c r st ≡ (oauth_error 400 "unsupported_grant_type" "", st)
  unfolding token
  token-refused r st f g h = rw (f, g, h, if◌then◌else◌) refl

  not_listed : (s t : String) (rest : List String) → (Among s (t ∷ rest) → ⊥) → (s == t) ≡ false
  not_listed s t rest n = elim (text_cases s t) [
    | inl (_, p) ↦ absurd (n (inl (sym p)))
    | inr (q, _) ↦ q
  ]

  -- The endpoints of the metadata are served at their paths below the issuer, each by its own handler.
  -- /authorize only ever sends a browser on for a response type and a PKCE method that the metadata
  -- lists. For a request whose form parses, /token does what handleAuthCode does if the grant type is
  -- authorization_code and what handleRefresh does if it is refresh_token, both are listed and no other
  -- is, and a grant type that is not listed is answered with unsupported_grant_type and changes nothing.
  pub discovery-Honest : (L : IsStore S) → Honest L (discovery c)
  unfolding discovery
  discovery-Honest L = record {
    authorization = record { path = "/authorize"; spelled = refl; routed = unfold route in refl };
    token_served = record { path = "/token"; spelled = refl; routed = unfold route in refl };
    keys = record { path = "/jwks"; spelled = refl; routed = unfold route in refl };
    self = unfold route in refl;
    asked = λ q st url h.
        let p = authorize-Pending S E c L q st url h in
        (inl (sym p.response_type), inl (sym (method_known q p.pkce)));
    granted = λ r st f g. elim g [
      | inl e ↦ inl (sym e, token-code r st f (sym e))
      | inr g' ↦ elim g' [ inl e ↦ inr (sym e, token-refresh r st f (sym e)) | inr x ↦ absurd x ]
    ];
    code_granted = inl refl;
    refresh_granted = inr (inl refl);
    refused = λ r st f n.
        token-refused r st f (not_listed r.grant_type "authorization_code" ("refresh_token" ∷ []) n)
          (not_listed r.grant_type "refresh_token" [] (λ x. n (inr x)));
  }
