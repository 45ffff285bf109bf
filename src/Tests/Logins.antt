-- ===== src/Tests/Logins.antt =====
-- A login: /authorize, /callback and the exchange of a code.
use kube_argus.Base.{arith, ◌≡◌, refl, none, some, [], ◌∷◌, decimal, some_of, true}
use kube_argus.Base.Dict.{lookup, insert, remove}
use kube_argus.Config.{equal_fold, allowed_domain, redirect_allowed}
use kube_argus.Store.Types.{fetch}
use kube_argus.Store.Memory.{
  save_auth_request, take_auth_request, save_code, take_code, save_refresh,
}
use kube_argus.Store.Memory.Laws.{memory_store, memory_laws}
use kube_argus.Broker.Types.{
  redirect_with, AuthorizeQuery, TokenRequest, redirect_to, tokens, oauth_error, Issued,
}
use kube_argus.Broker.Steps.{
  fields_from, scope_has, gids, to_group_refs, client_id_of, write_token_response, trim_right_slash,
  redirect_error, verify_pkce, valid_client_secret, sign_id_token,
}
use kube_argus.Broker.Login.{
  client_allowed, pkce_given, start_login, authorize, finish_issue, issue_tokens, hand_out,
  issue_code, admit, resume, callback,
}
use kube_argus.Broker.Login.Admission.{Pending, authorize-Registered, authorize-Pending}
use kube_argus.Broker.Login.Registered.{Registered}
use kube_argus.Broker.Login.Callback.{LoggedIn, callback-LoggedIn}
use kube_argus.Broker.Token.{secret_missing, is_granted_to, redeem, handle_auth_code}
use kube_argus.Broker.Token.Exchange.{Exchanged, handle_auth_code-Exchanged, code_once}
use kube_argus.Broker.Token.Roundtrip.{callback-granted}
use kube_argus.Tests.Wiring.{ann, pending, returning, wiring, settings, start}

abbrev asking : AuthorizeQuery
asking = record {
  client_id = "headlamp";
  redirect_uri = "https://h/cb";
  state = "xyz";
  response_type = "code";
  scope = "openid email";
  nonce = "n";
  code_challenge = "hash of v";
  code_challenge_method = "S256";
}

authorize_example :
    (authorize memory_store wiring settings asking start).0
    ≡ redirect_to "https://idp/auth?state=7&nonce=8"
unfolding authorize start_login client_allowed pkce_given scope_has fields_from redirect_allowed
    some_of decimal save_auth_request insert
authorize_example = refl

abbrev unscoped : AuthorizeQuery
unscoped = record asking { scope = "email" }

authorize-Registered_example :
    (unscoped.client_id ≡ settings.client_id)
    × (unscoped.redirect_uri ≡ unscoped.redirect_uri)
    × Registered "https://h/cb" settings.redirect_uris
unfolding authorize client_allowed pkce_given scope_has fields_from redirect_allowed some_of
    redirect_error
authorize-Registered_example =
    authorize-Registered memory_store wiring settings unscoped start "https://h/cb"
      (("error", "invalid_scope")
        ∷ ("error_description", "openid scope required")
        ∷ ("state", "xyz")
        ∷ [])
      refl

authorize-Pending_example :
    Pending memory_store wiring settings memory_laws asking start "https://idp/auth?state=7&nonce=8"
      (authorize memory_store wiring settings asking start).1
unfolding authorize start_login client_allowed pkce_given scope_has fields_from redirect_allowed
    some_of decimal save_auth_request insert
authorize-Pending_example =
    authorize-Pending memory_store wiring settings memory_laws asking start
      "https://idp/auth?state=7&nonce=8" refl

callback-LoggedIn_example :
    LoggedIn memory_store wiring settings memory_laws returning start "https://h/cb" "8"
      (("state", "xyz") ∷ [])
      (callback memory_store wiring settings returning start).1
unfolding callback resume admit issue_tokens finish_issue issue_code hand_out redirect_error
    equal_fold allowed_domain some_of sign_id_token trim_right_slash gids to_group_refs
    take_auth_request save_refresh save_code lookup insert remove fetch decimal
callback-LoggedIn_example =
    callback-LoggedIn memory_store wiring settings memory_laws returning start "https://h/cb" "8"
      (("state", "xyz") ∷ []) refl

-- The client's request for the code, and one with a verifier that is not the challenge's.
abbrev redeeming : TokenRequest
redeeming = record {
  form_parses = true;
  grant_type = "authorization_code";
  client_id = "headlamp";
  client_secret = "";
  code = "c";
  redirect_uri = "https://h/cb";
  code_verifier = "v";
  refresh_token = "";
  basic = none;
}

handle_auth_code-Exchanged_example :
    Exchanged memory_store wiring settings memory_laws redeeming start
      (tokens "sa-token" "signed 109" (some "r") 3600)
      (handle_auth_code memory_store wiring settings redeeming start).1
unfolding handle_auth_code redeem is_granted_to secret_missing valid_client_secret verify_pkce
    client_id_of write_token_response take_code lookup remove fetch
handle_auth_code-Exchanged_example =
    handle_auth_code-Exchanged memory_store wiring settings memory_laws redeeming start "sa-token"
      "signed 109" (some "r") 3600 refl

code_once_example :
    (handle_auth_code memory_store wiring settings redeeming
      (record (handle_auth_code memory_store wiring settings
        (record redeeming { code_verifier = "w" })
        start).1 { world = 9 })).0
    ≡ oauth_error 400 "invalid_grant" "unknown or used code"
unfolding handle_auth_code redeem is_granted_to secret_missing valid_client_secret verify_pkce
    client_id_of write_token_response take_code lookup remove fetch
code_once_example =
    code_once memory_store wiring settings memory_laws (record redeeming { code_verifier = "w" })
      redeeming start _ 9 refl refl

-- The client's request for the code of the callback.
abbrev presenting : TokenRequest
presenting = record redeeming { code = "8" }

abbrev issued_tokens : Issued
issued_tokens = record { access = "sa-token"; id = "signed 109"; refresh = "7"; expires_in = 3600 }

callback-granted_example :
    ((callback memory_store wiring settings returning start).0
      ≡ redirect_with "https://h/cb" (("code", "8") ∷ ("state", "xyz") ∷ []))
    × ((handle_auth_code memory_store wiring settings presenting
          (record (callback memory_store wiring settings returning start).1 { world = 100 })).0
        ≡ tokens "sa-token" "signed 109" (some "7") 3600)
unfolding callback resume admit issue_tokens finish_issue issue_code hand_out redirect_error
    equal_fold allowed_domain some_of sign_id_token trim_right_slash gids to_group_refs
    take_auth_request save_refresh save_code lookup insert remove fetch decimal secret_missing
    client_id_of write_token_response
callback-granted_example =
    callback-granted wiring settings returning start pending ann issued_tokens presenting 100 refl
      refl refl refl refl refl refl
      (record { code_given = refl; client = refl; redirect = refl; secret = refl; pkce = refl })
      (omega arith)

-- The code of the callback is redeemed a moment later.
redeemed :
    (handle_auth_code memory_store wiring settings presenting
      (record (callback memory_store wiring settings returning start).1 { world = 100 })).0
    ≡ tokens "sa-token" "signed 109" (some "7") 3600
unfolding callback resume admit issue_tokens finish_issue issue_code hand_out redirect_error
    equal_fold allowed_domain some_of sign_id_token trim_right_slash gids to_group_refs
    take_auth_request save_refresh save_code lookup insert remove fetch decimal handle_auth_code
    redeem is_granted_to secret_missing valid_client_secret verify_pkce client_id_of
    write_token_response take_code
redeemed = refl
