-- ===== src/Tests/Refreshes.antt =====
-- Two refreshes with one refresh token.
use kube_argus.Base.{◌≡◌, ◌≢◌, eq_iff, refl, String, some, arith, decimal, true}
use kube_argus.Base.Dict.{lookup, insert, remove}
use kube_argus.Store.Types.{fetch}
use kube_argus.Store.Memory.{take_refresh, save_refresh}
use kube_argus.Store.Memory.Laws.{memory_store, memory_laws}
use kube_argus.Broker.Types.{TokenRequest, tokens, oauth_error}
use kube_argus.Broker.Steps.{
  client_id_of, valid_client_secret, write_token_response, sign_id_token, trim_right_slash, gids,
  to_group_refs, from_group_refs,
}
use kube_argus.Broker.Login.{issue_tokens, finish_issue}
use kube_argus.Broker.Token.{secret_missing, identity_of, reissue, handle_refresh}
use kube_argus.Broker.Token.Rotation.{Rotated, handle_refresh-Rotated, refresh_once}
use kube_argus.Tests.Wiring.{wiring, settings, start}

abbrev refreshing : TokenRequest
refreshing = record {
  form_parses = true;
  grant_type = "refresh_token";
  client_id = "";
  client_secret = "";
  code = "";
  redirect_uri = "";
  code_verifier = "";
  refresh_token = "r";
  basic = some ("headlamp", "");
}

handle_refresh-Rotated_example :
    Rotated memory_store wiring settings memory_laws refreshing start
      (tokens "sa-token" "signed 109" (some "7") 3600)
      (handle_refresh memory_store wiring settings refreshing start).1
unfolding handle_refresh reissue identity_of secret_missing valid_client_secret client_id_of
    issue_tokens finish_issue sign_id_token trim_right_slash gids to_group_refs from_group_refs
    write_token_response take_refresh save_refresh lookup insert remove fetch decimal
handle_refresh-Rotated_example =
    handle_refresh-Rotated memory_store wiring settings memory_laws refreshing start "sa-token"
      "signed 109" (some "7") 3600 refl

seven≢r : ◌≢◌ {A = String} "7" "r"
seven≢r p = let h = (eq_iff "7" "r").1 p in ground arith

refresh_once_example :
    (handle_refresh memory_store wiring settings refreshing
      (record (handle_refresh memory_store wiring settings refreshing start).1 { world = 9 })).0
    ≡ oauth_error 400 "invalid_grant" "unknown or used refresh token"
unfolding handle_refresh reissue identity_of secret_missing valid_client_secret client_id_of
    issue_tokens finish_issue sign_id_token trim_right_slash gids to_group_refs from_group_refs
    write_token_response take_refresh save_refresh lookup insert remove fetch decimal
refresh_once_example =
    refresh_once memory_store wiring settings memory_laws refreshing refreshing start "sa-token"
      "signed 109" "7" 3600 9 refl seven≢r refl
