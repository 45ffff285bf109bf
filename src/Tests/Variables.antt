-- ===== src/Tests/Variables.antt =====
-- A configuration, loaded from a map of variables.
use kube_argus.Base.{
  All, is_space, if◌then◌else◌, ◌↔◌, String, ◌==◌, ◌≡◌, refl, true, false, Option, none, some, [],
  ◌∷◌, inl, inr, ok, err, ℤ, pos, seconds, wrap64,
}
use kube_argus.Base.Dict.{Dict, lookup}
use kube_argus.Config.Environ.{getenv, env, env_int, env_bool, atoi, digits, magnitude, parse_bool}
use kube_argus.Config.Split.{
  push, split, trim_left, trim_right, trim_space, keep_items, split_csv, join, holds, ends_spaced,
  IsItem,
}
use kube_argus.Config.Split.Joined.{split_csv-join}
use kube_argus.Config.Split.Items.{split_csv-IsItem}
use kube_argus.Config.Load.{
  Settings, read, default_issuer, session_lifetime, require, require_any, missing_of, validate,
  resolve, load,
}
use kube_argus.Config.Load.Sufficient.{Sufficient, load_iff}
use kube_argus.Config.Load.Lifetimes.{Lifetimes, load-Lifetimes}

abbrev pub variables : Dict String
variables =
    ("ISSUER", "https://broker")
    ∷ ("IDP_TYPE", "google")
    ∷ ("IDP_CLIENT_ID", "id")
    ∷ ("IDP_CLIENT_SECRET", "secret")
    ∷ ("IDP_REDIRECT_URL", "https://broker/callback")
    ∷ ("CLIENT_ID", "headlamp")
    ∷ ("REDIRECT_URIS", "https://h/cb, https://h/cb2")
    ∷ ("ALLOWED_DOMAINS", "example.com")
    ∷ ("GOOGLE_DELEGATED_ADMIN", "root@example.com")
    ∷ ("TOKEN_LIFETIME_SECONDS", "600")
    ∷ []

abbrev pub hours : String → Option ℤ
hours s = if s == "12h" then some (pos 43_200_000_000_000) else none

abbrev pub quoted : String → String
quoted s = s

split_csv-IsItem_example : All IsItem (split_csv " a@b , ,c,\td e")
split_csv-IsItem_example = split_csv-IsItem " a@b , ,c,\td e"

plain_uri : IsItem "https://h/cb"
unfolding holds ends_spaced is_space
plain_uri = record { nonempty = refl; no_comma = refl; starts = refl; ends = refl }

split_csv-join_example :
    split_csv (join ", " ("https://h/cb" ∷ "https://h/cb" ∷ []))
    ≡ "https://h/cb" ∷ "https://h/cb" ∷ []
split_csv-join_example =
    split_csv-join ("https://h/cb" ∷ "https://h/cb" ∷ []) (plain_uri, (plain_uri, tt))

load_iff_example : ((s : Settings) × (load quoted hours variables ≡ ok s)) ↔ Sufficient variables
load_iff_example = load_iff variables quoted hours

pub enough : Sufficient variables
unfolding getenv lookup split_csv split push keep_items trim_space trim_left trim_right is_space
enough = record {
  issuer = refl;
  idp_issuer = inr refl;
  idp_client_id = refl;
  idp_client_secret = refl;
  idp_redirect_url = refl;
  client_id = refl;
  redirect_uris = refl;
  allowed_domains = refl;
  provider = inr (inr (refl, refl));
  backend = inl refl;
}

loads : (s : Settings) × (load quoted hours variables ≡ ok s)
loads = (load_iff variables quoted hours).1 enough

load-Lifetimes_example : Lifetimes hours variables loads.0
load-Lifetimes_example = load-Lifetimes hours variables quoted loads.0 loads.1

ten_minutes : (resolve quoted hours variables).token_lifetime ≡ pos 600_000_000_000
unfolding resolve read env_int getenv lookup atoi digits magnitude seconds wrap64
ten_minutes = refl

half_a_day : (resolve quoted hours variables).refresh_token_lifetime ≡ pos 43_200_000_000_000
unfolding resolve read session_lifetime env getenv lookup
half_a_day = refl

nothing_set :
    load quoted hours []
    ≡ err
        "missing required config: ISSUER, IDP_ISSUER, IDP_CLIENT_ID, IDP_CLIENT_SECRET, IDP_REDIRECT_URL, CLIENT_ID, REDIRECT_URIS, ALLOWED_DOMAINS"
unfolding load validate missing_of require require_any resolve read default_issuer env getenv lookup
    split_csv join
nothing_set = refl

switches :
    (parse_bool "True" ≡ some true) × (parse_bool "0" ≡ some false) × (parse_bool "yes" ≡ none)
unfolding parse_bool
switches = (refl, refl, refl)

redis_in_tls : env_bool (("REDIS_TLS", "t") ∷ []) "REDIS_TLS" false ≡ true
unfolding env_bool parse_bool getenv lookup
redis_in_tls = refl
