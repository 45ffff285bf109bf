-- ===== src/Tests/Proxies.antt =====
-- A request of a user who tries to impersonate an administrator.
use kube_argus.Base.{
  ℕ, ◌≡◌, refl, String, ◌==◌, ◌<>◌, some, [], ◌∷◌, ok, err, arith, if◌then◌else◌, text_of,
}
use kube_argus.Base.Dict.{lookup, insert, remove}
use kube_argus.K8s.SanitizeName.{
  to_lower, write_rune, trim_left, trim_right, trim, fit, or_user, sanitize, sanitize_name,
}
use kube_argus.Proxy.{
  text, Wiring, Proxy, Request, forwarded, after_prefix, bearer, is_impersonation,
  drop_impersonation, rewrite, refill, token, user_of, swap, authenticate, serve,
}
use kube_argus.Proxy.Cache.{IsSound}
use kube_argus.Proxy.Isolation.{Isolated, serve-Isolated}

abbrev pub wiring : Wiring
wiring = record {
  World = ℕ;
  clock = λ w. w;
  IdToken = String;
  verify = λ raw w. ((if raw == "good" then ok raw else err "bad signature"), w);
  claims = λ id. some (("email", text "ann@example.com") ∷ []);
  mint = λ sa w. (ok (record { access_token = "token of " <> sa; expires_in = 3600 }), w);
  canonical = λ k. k;
}

abbrev proxy : Proxy
proxy = record { cache = []; ttl = 300; username_claim = "email" }

abbrev pub request : Request
request = record {
  path = "/api/v1/pods";
  headers = ("Authorization", "Bearer good" ∷ []) ∷ ("Impersonate-User", "admin" ∷ []) ∷ [];
}

empty-IsSound : IsSound wiring []
unfolding lookup
empty-IsSound sa e h = ground arith

serve-Isolated_example :
    Isolated wiring request proxy 7
      (serve wiring request (proxy, 7)).0
      (serve wiring request (proxy, 7)).1.0
serve-Isolated_example = serve-Isolated wiring request proxy 7 empty-IsSound

swapped :
    (serve wiring request (proxy, 7)).0
    ≡ forwarded (record {
      path = "/api/v1/pods";
      headers = ("Authorization", "Bearer token of ann-example-com" ∷ []) ∷ [];
    })
unfolding serve authenticate swap user_of token refill rewrite drop_impersonation is_impersonation
    bearer after_prefix lookup insert remove to_lower write_rune trim_left trim_right trim fit
    or_user sanitize sanitize_name text_of
swapped = refl
