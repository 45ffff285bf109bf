-- ===== src/Tests/Servers.antt =====
-- A broker with all its parts: a login from end to end, its endpoints, its start and its key.
use kube_argus.Base.{ℕ, suc, ◌<>◌, refl, true, none, [], ◌∷◌, ok, decimal, some_of}
use kube_argus.Base.Dict.{lookup, insert, remove}
use kube_argus.Config.{equal_fold, allowed_domain}
use kube_argus.Store.Types.{fetch}
use kube_argus.Store.Memory.{take_auth_request, save_code, save_refresh}
use kube_argus.Store.Memory.Laws.{memory_store, memory_laws}
use kube_argus.Idp.Calls.{Wiring}
use kube_argus.Idp.{Provider, oidc, authenticate}
use kube_argus.Idp.Oidc.{after_last_at, domain_of, groups_in, parse_groups, as_string, as_bool}
use kube_argus.Idp.Oidc as Oidc
use kube_argus.K8s.Binder.{Cluster, renew, upsert, look, wait_binded, mint}
use kube_argus.Broker.Steps.{gids, to_group_refs, redirect_error, sign_id_token, trim_right_slash}
use kube_argus.Broker.Login.{
  finish_issue, issue_tokens, hand_out, issue_code, admit, resume, callback,
}
use kube_argus.Broker.Session.{State}
use kube_argus.Broker.Discovery.{discovery}
use kube_argus.Server.Wired.{Rest, wired}
use kube_argus.Server.Chain.{Earned, callback-Earned}
use kube_argus.Server.Endpoints.{Honest, discovery-Honest}
use kube_argus.Tests.Wiring.{settings, stocked}
use kube_argus.Tests.Wiring as Alone
use kube_argus.Tests.Idps.{calls}
use kube_argus.Tests.Binders.{cluster, binder}

-- The provider answers with a token for the nonce of the stored login.
abbrev idp_calls : Wiring
idp_calls = record calls { exchange = λ o code w. (ok "m", suc w) }

abbrev early : Cluster
early = record cluster { clock = λ s. 7 }

abbrev rest : Rest
rest = record {
  Random = ℕ;
  rand_token = λ w. (decimal w, suc w);
  sign = λ claims. ok ("signed " <> claims.sub);
  s256 = λ v. "hash of " <> v;
  url_parses = λ u. true;
  fold = λ r. r;
}

abbrev provider : Provider idp_calls
provider = oidc (record {
  oauth = record {
    client_id = "id";
    client_secret = "secret";
    redirect_url = "https://broker/callback";
    endpoint = "https://idp";
    scopes = [];
  };
  audience = "id";
  groups_claim = "groups";
})

abbrev start : State memory_store (wired idp_calls early rest provider binder [] 3 settings)
start = record { store = stocked; world = record { idp = 0; cluster = none; random = 7 } }

callback-Earned_example :
    Earned idp_calls early rest memory_store memory_laws provider binder [] 3 settings
      Alone.returning start "8"
      (callback memory_store
        (wired idp_calls early rest provider binder [] 3 settings)
        settings
        Alone.returning
        start).1
unfolding callback resume admit issue_tokens finish_issue issue_code hand_out redirect_error
    equal_fold allowed_domain some_of sign_id_token trim_right_slash gids to_group_refs
    take_auth_request save_refresh save_code lookup insert remove fetch decimal authenticate
    Oidc.authenticate Oidc.verified Oidc.accept Oidc.identity_of as_string as_bool domain_of
    after_last_at parse_groups groups_in upsert renew look wait_binded mint
callback-Earned_example =
    callback-Earned idp_calls early rest memory_store memory_laws provider binder [] 3 settings
      Alone.returning start "https://h/cb" "8" (("state", "xyz") ∷ []) refl

discovery-Honest_example :
    Honest memory_store Alone.wiring settings memory_laws (discovery settings)
discovery-Honest_example = discovery-Honest memory_store Alone.wiring settings memory_laws
