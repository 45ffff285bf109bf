-- ===== src/Tests/Swaps.antt =====
-- Two requests of one user through the proxy as it is wired: the second takes its token from the cache.
use kube_argus.Base.{
  ℕ, suc, ◌≡◌, refl, ◌⊎◌, String, ◌==◌, ◌<>◌, some, [], ◌∷◌, ok, err, arith, if◌then◌else◌, text_of,
  seconds, wrap64,
}
use kube_argus.Base.Dict.{lookup, insert, remove}
use kube_argus.K8s.SanitizeName.{
  to_lower, write_rune, trim_left, trim_right, trim, fit, or_user, sanitize, sanitize_name,
}
use kube_argus.K8s.Binder.{Cluster, mint}
use kube_argus.Proxy.{
  text, Wiring, Proxy, Request, after_prefix, bearer, is_impersonation, drop_impersonation, rewrite,
  refill, token, user_of, swap, authenticate, serve,
}
use kube_argus.Proxy.Start.{cache_ttl, new_proxy}
use kube_argus.Proxy.Isolation.{Unswapped}
use kube_argus.Proxy.Serving.{opened, answered}
use kube_argus.Proxy.Wired.{Verifier, World, wired}
use kube_argus.Proxy.Backed.{Backed, serve-Backed}
use kube_argus.Tests.Proxies.{request}
use kube_argus.Tests.Races.{ten_minutes}

abbrev verifier : Verifier
verifier = record {
  Keys = Unit {0};
  IdToken = String;
  verify =
      λ jwks issuer client now raw k. ((if raw == "good" then ok raw else err "bad signature"), k);
  claims = λ id. some (("email", text "ann@example.com") ∷ []);
  canonical = λ k. k;
}

abbrev cluster : Cluster
cluster = record {
  State = ℕ;
  clock = λ s. s;
  get = λ namespace name s. (err "not found", s);
  create_or_update = λ b f s. (ok (f b), s);
  create_token = λ namespace name audiences life s. (ok ("token of " <> name), suc s);
  pause = λ s. suc s;
  format_time = λ t. "1970-01-01T00:00:05Z";
}

abbrev proxy : Wiring
proxy = wired verifier cluster ten_minutes 600

-- The world at a time.
abbrev at : ℕ → World verifier cluster
at now = record { keys = tt; cluster = now }

abbrev warm : Proxy
warm = (serve proxy request (new_proxy ten_minutes, at 5)).1.0

abbrev sent : Request
sent = record {
  path = "/api/v1/pods";
  headers = ("Authorization", "Bearer token of ann-example-com" ∷ []) ∷ [];
}

serve-Backed_example :
    ((sent ≡ request) × Unswapped proxy request warm (at 300))
    ⊎ Backed verifier cluster ten_minutes 600 request warm (at 300) sent
unfolding serve authenticate swap user_of token refill rewrite drop_impersonation is_impersonation
    bearer after_prefix lookup insert remove to_lower write_rune trim_left trim_right trim fit
    or_user sanitize sanitize_name text_of new_proxy cache_ttl seconds wrap64 mint
serve-Backed_example =
    serve-Backed verifier cluster ten_minutes 600 request sent warm (at 300) refl (omega arith)
      (answered (opened refl) request (at 5) refl) refl
