-- ===== src/Config/Load.antt =====
-- `Load` and `validate` of service/internal/config/config.go over a map of variables. `duration` is
-- `time.ParseDuration`, and `quoted` is `%q`.
pub mod Validate
pub mod Defaults
pub mod Sufficient
pub mod Lifetimes
use kube_argus.Base.{
  String, ◌<>◌, ◌==◌, Bool, true, false, ◌&&◌, Option, none, some, List, [], ◌∷◌, ◌++◌, is_empty,
  if◌then◌else◌, Result, ok, err, ℤ, pos, seconds,
}
use kube_argus.Base.Dict.{Dict}
use kube_argus.Config.Environ.{getenv, env, env_int, env_bool}
use kube_argus.Config.Split.{split_csv, join}

pub record IdpConfig : Type 0 where
  -- `Type`
  pub kind : String
  pub issuer : String
  pub client_id : String
  pub client_secret : String
  pub redirect_url : String
  pub scopes : List String
  pub groups_claim : String
  pub google_delegated_admin : String
  pub google_credentials_file : String

pub record StoreConfig : Type 0 where
  pub backend : String
  pub redis_addr : String
  pub redis_password : String
  pub redis_db : ℤ
  pub redis_tls : Bool

-- `Config`, whole. A duration is a signed number of nanoseconds.
pub record Settings : Type 0 where
  pub listen_addr : String
  pub issuer : String
  pub idp : IdpConfig
  pub allowed_domains : List String
  pub client_id : String
  pub client_secret : String
  pub redirect_uris : List String
  pub token_lifetime : ℤ
  pub refresh_token_lifetime : ℤ
  pub id_token_signing_key : String
  pub tls_cert_file : String
  pub tls_key_file : String
  pub bind_namespace : String
  pub bind_ttl : String
  pub token_audiences : List String
  pub store : StoreConfig

-- The literal at the head of `Load`.
unfoldable pub read : Dict String → Settings
read e = record {
  listen_addr = env e "LISTEN_ADDR" ":8080";
  issuer = getenv e "ISSUER";
  idp = record {
    kind = env e "IDP_TYPE" "oidc";
    issuer = getenv e "IDP_ISSUER";
    client_id = getenv e "IDP_CLIENT_ID";
    client_secret = getenv e "IDP_CLIENT_SECRET";
    redirect_url = getenv e "IDP_REDIRECT_URL";
    scopes = split_csv (env e "IDP_SCOPES" "openid,email,profile");
    groups_claim = env e "IDP_GROUPS_CLAIM" "groups";
    google_delegated_admin = getenv e "GOOGLE_DELEGATED_ADMIN";
    google_credentials_file = getenv e "GOOGLE_CREDENTIALS_FILE";
  };
  allowed_domains = split_csv (getenv e "ALLOWED_DOMAINS");
  client_id = getenv e "CLIENT_ID";
  client_secret = getenv e "CLIENT_SECRET";
  redirect_uris = split_csv (getenv e "REDIRECT_URIS");
  token_lifetime = seconds (env_int e "TOKEN_LIFETIME_SECONDS" (pos 900));
  refresh_token_lifetime = pos 0;
  id_token_signing_key = getenv e "ID_TOKEN_SIGNING_KEY";
  tls_cert_file = getenv e "TLS_CERT_FILE";
  tls_key_file = getenv e "TLS_KEY_FILE";
  bind_namespace = env e "BIND_NAMESPACE" "kargus-system";
  bind_ttl = env e "BIND_TTL" "12h";
  token_audiences = split_csv (getenv e "TOKEN_AUDIENCES");
  store = record {
    backend = env e "SESSION_STORE" "memory";
    redis_addr = getenv e "REDIS_ADDR";
    redis_password = getenv e "REDIS_PASSWORD";
    redis_db = env_int e "REDIS_DB" (pos 0);
    redis_tls = env_bool e "REDIS_TLS" false;
  };
}

unfoldable pub default_issuer : IdpConfig → IdpConfig
default_issuer i =
    if i.kind == "google" && i.issuer == ""
    then record i { issuer = "https://accounts.google.com" }
    else i

-- The `switch` on the life of a session.
unfoldable pub session_lifetime : (String → Option ℤ) → Dict String → String → ℤ
session_lifetime duration e bind_ttl =
    if getenv e "REFRESH_TOKEN_LIFETIME_SECONDS" == ""
    then elim (duration bind_ttl) [ none ↦ pos 28_800_000_000_000 | some d ↦ d ]
    else seconds (env_int e "REFRESH_TOKEN_LIFETIME_SECONDS" (pos 28800))

-- `require`
unfoldable pub require : String → String → List String → List String
require name val missing = if val == "" then missing ++ (name ∷ []) else missing

unfoldable pub require_any : String → List String → List String → List String
require_any name vals missing = if is_empty vals then missing ++ (name ∷ []) else missing

unfoldable pub missing_of : Settings → List String
missing_of c = require_any "ALLOWED_DOMAINS" c.allowed_domains (
    require_any "REDIRECT_URIS" c.redirect_uris (
      require "CLIENT_ID" c.client_id (
        require "IDP_REDIRECT_URL" c.idp.redirect_url (
          require "IDP_CLIENT_SECRET" c.idp.client_secret (
            require "IDP_CLIENT_ID" c.idp.client_id
              (require "IDP_ISSUER" c.idp.issuer (require "ISSUER" c.issuer [])))))))

module _ (quoted : String → String) where
  unfoldable pub check_store : StoreConfig → Result String (Unit {0})
  check_store s =
      if s.backend == "memory"
      then ok tt
      else if s.backend == "redis"
      then (if s.redis_addr == "" then err "SESSION_STORE=redis requires REDIS_ADDR" else ok tt)
      else err ("SESSION_STORE must be memory or redis, got " <> quoted s.backend)

  unfoldable pub check_idp : IdpConfig → Result String (Unit {0})
  check_idp i =
      if i.kind == "oidc"
      then (if i.groups_claim == "" then err "IDP_TYPE=oidc requires IDP_GROUPS_CLAIM" else ok tt)
      else if i.kind == "google"
      then (if i.google_delegated_admin == ""
          then err "IDP_TYPE=google requires GOOGLE_DELEGATED_ADMIN"
          else ok tt)
      else err ("IDP_TYPE must be oidc or google, got " <> quoted i.kind)

  unfoldable pub validate : Settings → Result String (Unit {0})
  validate c =
      let missing = missing_of c in
      if is_empty missing
      then elim (check_idp c.idp) [ err e ↦ err e | ok _ ↦ check_store c.store ]
      else err ("missing required config: " <> join ", " missing)

  unfoldable pub resolve : (String → Option ℤ) → Dict String → Settings
  resolve duration e =
      let c = read e in
      record c {
        idp = default_issuer c.idp;
        refresh_token_lifetime = session_lifetime duration e c.bind_ttl;
      }

  abbrev pub checked : Settings → Result String (Unit {0}) → Result String Settings
  checked c (err m) = err m
  checked c (ok _) = ok c

  unfoldable pub load : (String → Option ℤ) → Dict String → Result String Settings
  load duration e = let c = resolve duration e in checked c (validate c)
