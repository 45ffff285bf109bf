-- ===== src/Idp/Oidc.antt =====
-- The generic provider: service/internal/idp/oidc/oidc.go.
pub mod Email
pub mod Groups
use Prim.Native.Char.{code}
use kube_argus.Base.{
  String, ◌<>◌, ◌==◌, Bool, true, false, ◌&&◌, not, Option, none, some, List, [], ◌∷◌, nat_eq,
  Result, ok, err, Exec, if◌then◌else◌, is_nil,
}
use kube_argus.Base.Dict.{Dict, lookup}
use kube_argus.Model.{Identity, Membership}
use kube_argus.Config.Load.{IdpConfig}
use kube_argus.Idp.Calls.{Any, text, flag, array, other, Anys, end, item, Oauth, Wiring}

-- The text behind the last `@`, if there is one. The loop over the bytes runs from the end.
unfoldable pub after_last_at : String → Option String
after_last_at String.[] = none
after_last_at (String.◌∷◌ c s) =
    let later = after_last_at s in
    elim later [ some t ↦ some t | none ↦ if nat_eq (code c) b'@' then some s else none ]

unfoldable pub domain_of : String → String
domain_of email = elim (after_last_at email) [ none ↦ "" | some d ↦ d ]

-- The loop of `ParseGroups`.
unfoldable pub groups_in : Anys → String → List Membership
groups_in end domain = []
groups_in (item (text g) vs) domain =
    let rest = groups_in vs domain in
    if is_nil g then rest else record { gid = g; name = g; domain = domain } ∷ rest
groups_in (item _ vs) domain = groups_in vs domain

unfoldable pub parse_groups : Option Any → String → List Membership
parse_groups (some (array vs)) domain = groups_in vs domain
parse_groups _ domain = []

unfoldable pub as_string : Option Any → String
as_string (some (text t)) = t
as_string _ = ""

unfoldable pub as_bool : Option Any → Bool
as_bool (some (flag b)) = b
as_bool _ = false

module _ (W : Wiring) where
  -- `Provider`; its verifier is that of the endpoint's issuer for `audience`.
  pub record OidcProvider : Type 0 where
    pub oauth : Oauth W.Issuer
    pub audience : String
    pub groups_claim : String

  unfoldable pub new : IdpConfig → Exec W.World String OidcProvider
  new cfg w =
      let (r, w') = W.discover cfg.issuer w in
      elim r [
        | err e ↦ (err ("oidc discovery (" <> (cfg.issuer <> ("): " <> e))), w')
        | ok issuer ↦ (
          ok (record {
            oauth = record {
              client_id = cfg.client_id;
              client_secret = cfg.client_secret;
              redirect_url = cfg.redirect_url;
              endpoint = issuer;
              scopes = cfg.scopes;
            };
            audience = cfg.client_id;
            groups_claim = cfg.groups_claim;
          }),
          w',
        )
      ]

  unfoldable pub auth_url : OidcProvider → String → String → String
  auth_url p state nonce = W.auth_code_url p.oauth state nonce

  -- From the decoded claims on.
  unfoldable pub identity_of : OidcProvider → W.IdToken → Dict Any → Identity
  identity_of p t claims =
      let email = as_string (lookup "email" claims) in
      record {
        subject = W.subject t;
        email = email;
        email_verified = as_bool (lookup "email_verified" claims);
        domain = domain_of email;
        name = as_string (lookup "name" claims);
        groups = parse_groups (lookup p.groups_claim claims) (domain_of email);
      }

  -- From the verified token on.
  unfoldable pub accept : OidcProvider → String → W.IdToken → Result String Identity
  accept p nonce t =
      let id = W.claims t in
      if not (nonce == "") && not (W.nonce t == nonce)
      then err "id_token nonce mismatch"
      else elim id [ err e ↦ err ("parse claims: " <> e) | ok cs ↦ ok (identity_of p t cs) ]

  -- From the answer of the token endpoint on.
  unfoldable pub verified : OidcProvider → String → W.Tokens → Exec W.World String Identity
  verified p nonce tokens w = elim (W.extra_id_token tokens) [
    | none ↦ (err "response missing id_token", w)
    | some raw ↦
        let (r, w') = W.verify p.oauth.endpoint p.audience raw w in
        elim r [ err e ↦ (err ("verify id_token: " <> e), w') | ok t ↦ (accept p nonce t, w') ]
  ]

  unfoldable pub authenticate : OidcProvider → String → String → Exec W.World String Identity
  authenticate p code nonce w =
      let (r, w') = W.exchange p.oauth code w in
      elim r [ err e ↦ (err ("code exchange: " <> e), w') | ok tokens ↦ verified p nonce tokens w' ]
