-- ===== src/Idp/Google.antt =====
-- The provider for Google Workspace: service/internal/idp/google/google.go.
use kube_argus.Base.{
  String, ◌<>◌, ◌==◌, ◌&&◌, not, none, some, List, [], ◌∷◌, ◌++◌, Result, ok, err, Exec,
  if◌then◌else◌,
}
use kube_argus.Model.{Identity, Membership}
use kube_argus.Config.Load.{IdpConfig}
use kube_argus.Idp.Calls.{Group, GoogleClaims, Oauth, Wiring}

-- The callback of `Pages` on one page.
unfoldable pub add_page : String → List Group → List Membership → List Membership
add_page domain [] out = out
add_page domain (g ∷ gs) out =
    add_page domain gs (out ++ (record { gid = g.id; name = g.name; domain = domain } ∷ []))

unfoldable pub add_pages : String → List (List Group) → List Membership → List Membership
add_pages domain [] out = out
add_pages domain (page ∷ pages) out = add_pages domain pages (add_page domain page out)

module _ (W : Wiring) where
  -- `Provider`; its verifier is that of the endpoint's issuer for `audience`.
  pub record GoogleProvider : Type 0 where
    pub oauth : Oauth W.Issuer
    pub audience : String
    pub dir : W.Directory

  unfoldable pub service_account_key : IdpConfig → Exec W.World String String
  service_account_key cfg w =
      let (file, read) = W.read_file cfg.google_credentials_file w in
      let (creds, found) = W.default_credentials w in
      if cfg.google_credentials_file == ""
      then elim creds [
        | err e ↦ (err ("no google credentials (set GOOGLE_CREDENTIALS_FILE): " <> e), found)
        | ok json ↦
            if json == ""
            then (
              err
                  "domain-wide delegation requires a service-account key file; set GOOGLE_CREDENTIALS_FILE (metadata/Workload-Identity ADC has no key to sign the subject JWT)",
              found,
            )
            else (ok json, found)
      ]
      else elim file [
        | err e ↦ (err ("read GOOGLE_CREDENTIALS_FILE: " <> e), read)
        | ok b ↦ (ok b, read)
      ]

  unfoldable pub new_directory : IdpConfig → Exec W.World String W.Directory
  new_directory cfg w =
      let (r, w') = service_account_key cfg w in
      elim r [
        | err e ↦ (err e, w')
        | ok key ↦ elim (W.jwt_config key) [
          | err e ↦ (err ("google domain-wide delegation needs a service-account key: " <> e), w')
          | ok jwt ↦ W.new_directory jwt cfg.google_delegated_admin w'
        ]
      ]

  abbrev pub provider : IdpConfig → W.Issuer → W.Directory → GoogleProvider
  provider cfg issuer dir = record {
    oauth = record {
      client_id = cfg.client_id;
      client_secret = cfg.client_secret;
      redirect_url = cfg.redirect_url;
      endpoint = issuer;
      scopes = cfg.scopes;
    };
    audience = cfg.client_id;
    dir = dir;
  }

  -- From the discovery on.
  unfoldable pub with_directory : IdpConfig → W.Issuer → Exec W.World String GoogleProvider
  with_directory cfg issuer w =
      let (r, w') = new_directory cfg w in
      elim r [ err e ↦ (err e, w') | ok dir ↦ (ok (provider cfg issuer dir), w') ]

  unfoldable pub new : IdpConfig → Exec W.World String GoogleProvider
  new cfg w =
      let (r, w') = W.discover cfg.issuer w in
      elim r [
        | err e ↦ (err ("google oidc discovery: " <> e), w')
        | ok issuer ↦ with_directory cfg issuer w'
      ]

  unfoldable pub auth_url : GoogleProvider → String → String → String
  auth_url p state nonce = W.auth_code_url p.oauth state nonce

  unfoldable pub fetch_groups :
      GoogleProvider → String → String → Exec W.World String (List Membership)
  fetch_groups p email domain w =
      let (pages, error, w') = W.pages p.dir email 200 w in
      elim error [
        | some e ↦ (err ("list groups for " <> (email <> (": " <> e))), w')
        | none ↦ (ok (add_pages domain pages []), w')
      ]

  abbrev pub identity_of : GoogleClaims → List Membership → Identity
  identity_of c groups = record {
    subject = c.subject;
    email = c.email;
    email_verified = c.email_verified;
    domain = c.hosted_domain;
    name = c.name;
    groups = groups;
  }

  -- From the decoded claims on.
  unfoldable pub with_groups : GoogleProvider → GoogleClaims → Exec W.World String Identity
  with_groups p c w =
      let (r, w') = fetch_groups p c.email c.hosted_domain w in
      elim r [ err e ↦ (err e, w') | ok groups ↦ (ok (identity_of c groups), w') ]

  unfoldable pub with_claims :
      GoogleProvider → Result String GoogleClaims → Exec W.World String Identity
  with_claims p (err e) w = (err ("parse google claims: " <> e), w)
  with_claims p (ok c) w = with_groups p c w

  -- From the verified token on.
  unfoldable pub accept : GoogleProvider → String → W.IdToken → Exec W.World String Identity
  accept p nonce t w =
      let r = with_claims p (W.google_claims t) w in
      if not (nonce == "") && not (W.nonce t == nonce)
      then (err "google id_token nonce mismatch", w)
      else r

  -- From the answer of the token endpoint on.
  unfoldable pub verified : GoogleProvider → String → W.Tokens → Exec W.World String Identity
  verified p nonce tokens w = elim (W.extra_id_token tokens) [
    | none ↦ (err "google response missing id_token", w)
    | some raw ↦
        let (r, w') = W.verify p.oauth.endpoint p.audience raw w in
        elim r [ err e ↦ (err ("verify google id_token: " <> e), w') | ok t ↦ accept p nonce t w' ]
  ]

  unfoldable pub authenticate : GoogleProvider → String → String → Exec W.World String Identity
  authenticate p code nonce w =
      let (r, w') = W.exchange p.oauth code w in
      elim r [
        | err e ↦ (err ("google code exchange: " <> e), w')
        | ok tokens ↦ verified p nonce tokens w'
      ]
