-- ===== src/Broker/Token.antt =====
-- `Token`, `handleAuthCode` and `handleRefresh` of service/internal/broker/handlers.go.
pub mod Exchange
pub mod Rotation
pub mod Roundtrip
use kube_argus.Base.{◌==◌, Bool, not, ◌&&◌, ok, err}
use kube_argus.Base.{if◌then◌else◌}
use kube_argus.Model.{Identity}
use kube_argus.Config.{Config}
use kube_argus.Store.Types.{CodeGrant, RefreshGrant}
use kube_argus.Store.Contract.{Store}
use kube_argus.Broker.Types.{TokenRequest, Response, oauth_error}
use kube_argus.Broker.Env.{Env}
use kube_argus.Broker.Steps.{
  client_id_of, from_group_refs, valid_client_secret, verify_pkce, write_token_response,
}
use kube_argus.Broker.Login.{issue_tokens}
use kube_argus.Broker.Session.{State, stored}

-- `b.cfg.ClientSecret != "" && !b.validClientSecret(r)`
unfoldable pub secret_missing : Config → TokenRequest → Bool
secret_missing c r = not (c.client_secret == "") && not (valid_client_secret c r)

unfoldable pub is_granted_to : CodeGrant → TokenRequest → Bool
is_granted_to g r = client_id_of r == g.client_id && r.redirect_uri == g.redirect_uri

-- The answer to a code whose grant was found.
unfoldable pub redeem : Env → Config → TokenRequest → CodeGrant → Response
redeem E c r g =
    if not (is_granted_to g r)
    then oauth_error 400 "invalid_grant" "client or redirect mismatch"
    else if secret_missing c r
    then oauth_error 401 "invalid_client" "bad client credentials"
    else if not (verify_pkce E r.code_verifier g.code_challenge)
    then oauth_error 400 "invalid_grant" "PKCE verification failed"
    else write_token_response g.access_token g.id_token g.refresh_token g.expires_in

unfoldable pub identity_of : RefreshGrant → Identity
identity_of g = record {
  email = g.email;
  subject = g.subject;
  name = g.name;
  email_verified = g.email_verified;
  domain = g.domain;
  groups = from_group_refs g.groups;
}

module _ (S : Store) (E : Env) (c : Config) where
  unfoldable pub handle_auth_code : TokenRequest → State S E → Response × State S E
  handle_auth_code r st =
      let (grant, st1) = stored S E (λ now. S.take_code now r.code) st in
      elim grant [
        | err _ ↦ (oauth_error 400 "invalid_grant" "unknown or used code", st1)
        | ok g ↦ (redeem E c r g, st1)
      ]

  -- From the tests of the client on.
  unfoldable pub reissue : RefreshGrant → State S E → Response × State S E
  reissue g st =
      let (r, st1) = issue_tokens S E c (identity_of g) g.client_id "" st in
      elim r [
        | err _ ↦ (oauth_error 500 "server_error" "could not refresh", st1)
        | ok t ↦ (write_token_response t.access t.id t.refresh t.expires_in, st1)
      ]

  unfoldable pub handle_refresh : TokenRequest → State S E → Response × State S E
  handle_refresh r st =
      let (grant, st1) = stored S E (λ now. S.take_refresh now r.refresh_token) st in
      elim grant [
        | err _ ↦ (oauth_error 400 "invalid_grant" "unknown or used refresh token", st1)
        | ok g ↦
            if not (client_id_of r == g.client_id)
            then (oauth_error 400 "invalid_grant" "client mismatch", st1)
            else if secret_missing c r
            then (oauth_error 401 "invalid_client" "bad client credentials", st1)
            else reissue g st1
      ]

  unfoldable pub token : TokenRequest → State S E → Response × State S E
  token r st =
      if not r.form_parses
      then (oauth_error 400 "invalid_request" "bad form", st)
      else if r.grant_type == "authorization_code"
      then handle_auth_code r st
      else if r.grant_type == "refresh_token"
      then handle_refresh r st
      else (oauth_error 400 "unsupported_grant_type" "", st)
