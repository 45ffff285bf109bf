-- ===== src/Tests/Idps.antt =====
-- A login at each provider.
use kube_argus.Base.{
  Among, ℕ, suc, String, ◌<>◌, ◌==◌, ◌≡◌, refl, true, none, some, [], ◌∷◌, map, ok, err, ◌↔◌,
  if◌then◌else◌,
}
use kube_argus.Base.Dict.{Dict}
use kube_argus.Model.{Identity}
use kube_argus.Idp.Calls.{Any, text, flag, array, other, Anys, end, item, Oauth, Wiring}
use kube_argus.Idp.{Provider, oidc, google, authenticate}
use kube_argus.Idp.Oidc.{OidcProvider, domain_of, parse_groups}
use kube_argus.Idp.Oidc as Oidc
use kube_argus.Idp.Google.{GoogleProvider, add_page, add_pages, fetch_groups}
use kube_argus.Idp.Google as Google
use kube_argus.Idp.Oidc.Email.{EndsWith, domain_of_iff}
use kube_argus.Idp.Oidc.Groups.{NamedBy, parse_groups_iff}
use kube_argus.Idp.Pages.{member, concat, fetch_groups-concat}
use kube_argus.Idp.Verified.{Verified}
use kube_argus.Config.Load.{IdpConfig}

abbrev named : Anys
named = item (text "eng") (item other (item (text "") (item (text "ops") end)))

abbrev claims : Dict Any
claims =
    ("email", text "ann@example.com") ∷ ("email_verified", flag true) ∷ ("groups", array named) ∷ []

-- The world counts the calls; an id_token is its nonce.
abbrev pub calls : Wiring
calls = record {
  World = ℕ;
  Issuer = String;
  Tokens = String;
  IdToken = String;
  JwtConfig = String;
  Directory = String;
  discover = λ issuer w. (ok issuer, suc w);
  auth_code_url =
      λ o state nonce. o.endpoint <> ("/auth?state=" <> (state <> ("&nonce=" <> nonce)));
  exchange = λ o code w. (if code == "good" then ok "n" else err "invalid_grant", suc w);
  extra_id_token = λ t. some t;
  verify = λ issuer audience raw w. (ok raw, suc w);
  nonce = λ t. t;
  subject = λ t. "109";
  claims = λ t. ok claims;
  google_claims = λ t. ok (record {
    subject = "109";
    email = "ann@example.com";
    email_verified = true;
    hosted_domain = "example.com";
    name = "Ann";
  });
  read_file = λ path w. (ok "key", w);
  default_credentials = λ w. (ok "key", w);
  jwt_config = λ key. ok key;
  new_directory = λ jwt subject w. (ok subject, w);
  pages = λ dir user size w. (
    (record { id = "1"; name = "Engineering" } ∷ [])
        ∷ (record { id = "2"; name = "Operations" } ∷ [])
        ∷ [],
    none,
    suc w,
  );
}

abbrev oauth : Oauth String
oauth = record {
  client_id = "id";
  client_secret = "secret";
  redirect_url = "https://broker/callback";
  endpoint = "https://idp";
  scopes = [];
}

abbrev pub generic : Provider calls
generic = oidc (record { oauth = oauth; audience = "id"; groups_claim = "groups" })

abbrev workspace : GoogleProvider calls
workspace = record { oauth = oauth; audience = "id"; dir = "root" }

abbrev ann : Identity
ann = record {
  subject = "109";
  email = "ann@example.com";
  email_verified = true;
  domain = "example.com";
  name = "";
  groups =
      record { gid = "eng"; name = "eng"; domain = "example.com" }
      ∷ record { gid = "ops"; name = "ops"; domain = "example.com" }
      ∷ [];
}

wrong_nonce : (authenticate calls generic "good" "m" 0).0 ≡ err "id_token nonce mismatch"
unfolding authenticate Oidc.authenticate Oidc.verified Oidc.accept
wrong_nonce = refl

-- The configuration that the provider is made of.
abbrev settings : IdpConfig
settings = record {
  kind = "oidc";
  issuer = "https://idp";
  client_id = "id";
  client_secret = "secret";
  redirect_url = "https://broker/callback";
  scopes = [];
  groups_claim = "groups";
  google_delegated_admin = "";
  google_credentials_file = "";
}

google_groups :
    (authenticate calls (google workspace) "good" "n" 0).0
    ≡ ok (record {
      subject = "109";
      email = "ann@example.com";
      email_verified = true;
      domain = "example.com";
      name = "Ann";
      groups =
          record { gid = "1"; name = "Engineering"; domain = "example.com" }
          ∷ record { gid = "2"; name = "Operations"; domain = "example.com" }
          ∷ [];
    })
unfolding authenticate Google.authenticate Google.verified Google.accept Google.with_claims
    Google.with_groups fetch_groups add_pages add_page
google_groups = refl

fetch_groups-concat_example :
    (fetch_groups calls workspace "ann@example.com" "example.com" 0).0
    ≡ ok (map (member "example.com") (concat (calls.pages "root" "ann@example.com" 200 0).0))
fetch_groups-concat_example =
    fetch_groups-concat calls workspace "ann@example.com" "example.com" 0 refl

domain_of_iff_example : (domain_of "a@b@c" ≡ "c") ↔ EndsWith "a@b@c" "c"
domain_of_iff_example = domain_of_iff "a@b@c" "c" refl

parse_groups_iff_example :
    Among
      (record { gid = "ops"; name = "ops"; domain = "example.com" })
      (parse_groups (some (array named)) "example.com")
    ↔ NamedBy named "example.com" (record { gid = "ops"; name = "ops"; domain = "example.com" })
parse_groups_iff_example =
    parse_groups_iff named "example.com"
      (record { gid = "ops"; name = "ops"; domain = "example.com" })
