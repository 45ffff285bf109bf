-- ===== src/Proxy/Start.antt =====
-- The settings of `run` of service/cmd/proxy/main.go, and `New` of service/internal/proxy/proxy.go. `env` and
-- `envInt` have the text that they have in service/internal/config/config.go.
use kube_argus.Base.{
  not_negative, ℕ, zero, suc, ◌+◌, ◌*◌, ◌/◌, ◌≤◌, String, ◌<>◌, ◌==◌, ◌≡◌, ◌||◌, Bool, not, ◌&&◌,
  [], Result, ok, err, if◌then◌else◌, ℤ, pos, negsuc, seconds, seconds_exact, arith, ap, ◌∙◌,
}
use kube_argus.Base.Dict.{Dict}
use kube_argus.Config.Environ.{getenv, env, env_int}
use kube_argus.Broker.Steps.{trim_right_slash}
use kube_argus.Proxy.{Proxy}

pub record ProxySettings : Type 0 where
  pub issuer : String
  pub client_id : String
  pub namespace : String
  pub listen : String
  pub username_claim : String
  pub exp_secs : ℤ
  pub cert_file : String
  pub key_file : String
  pub jwks_url : String

unfoldable pub settings : Dict String → Result String ProxySettings
settings e =
    let issuer = getenv e "ISSUER" in
    if issuer == "" || getenv e "CLIENT_ID" == ""
    then err "ISSUER and CLIENT_ID are required"
    else ok (record {
      issuer = issuer;
      client_id = getenv e "CLIENT_ID";
      namespace = env e "BIND_NAMESPACE" "kargus-system";
      listen = env e "LISTEN_ADDR" ":8443";
      username_claim = env e "USERNAME_CLAIM" "email";
      exp_secs = env_int e "TOKEN_EXPIRATION_SECONDS" (pos 600);
      cert_file = getenv e "TLS_CERT_FILE";
      key_file = getenv e "TLS_KEY_FILE";
      jwks_url = env e "JWKS_URL" (trim_right_slash issuer <> "/jwks");
    })

-- `int(float64(n) * 0.8)`: the whole part of four fifths, which the product in float64 has too for
-- numbers up to 2 ^ 50.
abbrev pub four_fifths : ℤ → ℤ
four_fifths (pos n) = pos (n * 4 / 5)
four_fifths (negsuc n) = nonpositive ((n + 1) * 4 / 5)
  where
    nonpositive : ℕ → ℤ
    nonpositive zero = pos 0
    nonpositive (suc m) = negsuc m

unfoldable pub cache_ttl : ℤ → ℤ
cache_ttl exp_secs = seconds (four_fifths exp_secs)

-- `New`, with `newTokenCache`
unfoldable pub new_proxy : ProxySettings → Proxy
new_proxy s = record {
  cache = [];
  ttl = not_negative (cache_ttl s.exp_secs);
  username_claim = s.username_claim;
}

abbrev pub serves_tls : ProxySettings → Bool
serves_tls s = not (s.cert_file == "") && not (s.key_file == "")

-- What the cache keeps of the life of a token: at most four fifths, in nanoseconds.
pub new_proxy-ttl :
    (s : ProxySettings) (n : ℕ)
    → s.exp_secs ≡ pos n
    → n ≤ 9_223_372_036
    → 5 * (new_proxy s).ttl ≤ 4 * (n * 1_000_000_000)
unfolding new_proxy cache_ttl
new_proxy-ttl s n h l =
    let e =
      ap (λ x. not_negative (seconds (four_fifths x))) h
      ∙ ap not_negative (seconds_exact (n * 4 / 5) (omega arith)) in
    rw e (omega arith)
