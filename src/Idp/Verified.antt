-- ===== src/Idp/Verified.antt =====
-- Where an identity comes from: `Authenticate` of service/internal/idp/oidc/oidc.go and of
-- service/internal/idp/google/google.go.
use mathlib.Core.Path.{subst}
use kube_argus.Base.{
  Result, String, ◌==◌, ◌≡◌, false, ◌&&◌, not, none, some, [], ◌⊎◌, inl, inr, ok, arith,
  Outcome-cases, Option-cases, Bool-cases, eq_iff,
}
use kube_argus.Base.Dict.{Dict}
use kube_argus.Model.{Identity}
use kube_argus.Idp.Calls.{Any, GoogleClaims, Oauth, Wiring}
use kube_argus.Idp.Oidc
use kube_argus.Idp.Google
use kube_argus.Idp.Claimed.{
  ClaimedOidc, identity_of-ClaimedOidc, ClaimedGoogle, identity_of-ClaimedGoogle,
}
use kube_argus.Idp.{Provider, oidc, google, authenticate}

-- The nonce is not asked for, or it is that of the token.
abbrev pub IsBound : String → String → Type 0
IsBound nonce given = (nonce ≡ "") ⊎ (given ≡ nonce)

IsBound-of :
    (nonce given : String)
    → (not (nonce == "") && not (given == nonce)) ≡ false
    → IsBound nonce given
IsBound-of nonce given h = ground (arith, eq_iff nonce "", eq_iff given nonce)

ok-identity : (x y : Identity) → ◌≡◌ {A = Result String Identity} (ok x) (ok y) → x ≡ y
ok-identity x y h = ground arith

module _ (W : Wiring) where
  -- A verified token of a code, for one client of an issuer.
  pub record TokenOf (oauth : Oauth W.Issuer) (audience code nonce : String) (w : W.World)
      (token : W.IdToken) : Type 0 where
    pub tokens : W.Tokens
    pub exchanged : (W.exchange oauth code w).0 ≡ ok tokens
    pub raw : String
    pub given : W.extra_id_token tokens ≡ some raw
    pub signed : (W.verify oauth.endpoint audience raw (W.exchange oauth code w).1).0 ≡ ok token
    pub bound : IsBound nonce (W.nonce token)

  module _ (p : Oidc.OidcProvider W) where
    oidc-exchanged :
        (code nonce : String) (w : W.World) (id : Identity)
        → (Oidc.authenticate W p code nonce w).0 ≡ ok id
        → (tokens : W.Tokens) × ((W.exchange p.oauth code w).0 ≡ ok tokens)
          × ((Oidc.verified W p nonce tokens (W.exchange p.oauth code w).1).0 ≡ ok id)
    unfolding Oidc.authenticate
    oidc-exchanged code nonce w id h = elim (Outcome-cases (W.exchange p.oauth code w).0) [
      | inl (tokens, e) ↦ (tokens, e, ground arith)
      | inr (m, e) ↦ ground arith
    ]

    oidc-signed :
        (nonce : String) (tokens : W.Tokens) (w : W.World) (id : Identity)
        → (Oidc.verified W p nonce tokens w).0 ≡ ok id
        → (raw : String) × (token : W.IdToken) × (W.extra_id_token tokens ≡ some raw)
          × ((W.verify p.oauth.endpoint p.audience raw w).0 ≡ ok token)
          × (Oidc.accept W p nonce token ≡ ok id)
    unfolding Oidc.verified
    oidc-signed nonce tokens w id h = elim (Option-cases (W.extra_id_token tokens)) [
      | inl e ↦ ground arith
      | inr (raw, e) ↦ elim (Outcome-cases (W.verify p.oauth.endpoint p.audience raw w).0) [
        | inl (token, g) ↦ (raw, token, e, g, ground arith)
        | inr (m, g) ↦ ground arith
      ]
    ]

    oidc-accepted :
        (nonce : String) (token : W.IdToken) (id : Identity)
        → Oidc.accept W p nonce token ≡ ok id
        → IsBound nonce (W.nonce token)
          × ((cs : Dict Any) × (W.claims token ≡ ok cs) × ClaimedOidc W p token cs id)
    unfolding Oidc.accept
    oidc-accepted nonce token id h =
        let same : (cs : Dict Any)
            → Oidc.identity_of W p token cs ≡ id
            → ClaimedOidc W p token cs id =
          λ cs e. subst (ClaimedOidc W p token cs) e (identity_of-ClaimedOidc W p token cs) in
        elim (Bool-cases (not (nonce == "") && not (W.nonce token == nonce))) [
          | inl b ↦ ground arith
          | inr b ↦ elim (Outcome-cases (W.claims token)) [
            | inl (cs, e) ↦ (IsBound-of nonce (W.nonce token) b, (cs, e, same cs (ground arith)))
            | inr (m, e) ↦ ground arith
          ]
        ]

  module _ (p : Google.GoogleProvider W) where
    google-exchanged :
        (code nonce : String) (w : W.World) (id : Identity)
        → (Google.authenticate W p code nonce w).0 ≡ ok id
        → (tokens : W.Tokens) × ((W.exchange p.oauth code w).0 ≡ ok tokens)
          × ((Google.verified W p nonce tokens (W.exchange p.oauth code w).1).0 ≡ ok id)
    unfolding Google.authenticate
    google-exchanged code nonce w id h = elim (Outcome-cases (W.exchange p.oauth code w).0) [
      | inl (tokens, e) ↦ (tokens, e, ground arith)
      | inr (m, e) ↦ ground arith
    ]

    google-signed :
        (nonce : String) (tokens : W.Tokens) (w : W.World) (id : Identity)
        → (Google.verified W p nonce tokens w).0 ≡ ok id
        → (raw : String) × (token : W.IdToken) × (W.extra_id_token tokens ≡ some raw)
          × ((W.verify p.oauth.endpoint p.audience raw w).0 ≡ ok token)
          × ((Google.accept W p nonce token (W.verify p.oauth.endpoint p.audience raw w).1).0
              ≡ ok id)
    unfolding Google.verified
    google-signed nonce tokens w id h = elim (Option-cases (W.extra_id_token tokens)) [
      | inl e ↦ ground arith
      | inr (raw, e) ↦ elim (Outcome-cases (W.verify p.oauth.endpoint p.audience raw w).0) [
        | inl (token, g) ↦ (raw, token, e, g, ground arith)
        | inr (m, g) ↦ ground arith
      ]
    ]

    -- The groups are those of every page that the Directory API gives for the email of the token.
    abbrev pub Listed : GoogleClaims → W.World → Identity → Type 0
    Listed c w id =
        ((W.pages p.dir c.email 200 w).1 ≡ none)
        × ClaimedGoogle W c (W.pages p.dir c.email 200 w).0 id

    google-grouped :
        (c : GoogleClaims) (w : W.World) (id : Identity)
        → (Google.with_groups W p c w).0 ≡ ok id
        → Listed c w id
    unfolding Google.with_groups Google.fetch_groups
    google-grouped c w id h = elim (Option-cases (W.pages p.dir c.email 200 w).1) [
      | inl e ↦
          let pages = (W.pages p.dir c.email 200 w).0 in
          (
            e,
            subst (ClaimedGoogle W c pages)
                (ok-identity (Google.identity_of W c (Google.add_pages c.hosted_domain pages [])) id
                  (ground arith))
                (identity_of-ClaimedGoogle W c pages),
          )
      | inr (m, e) ↦ ground arith
    ]

    google-accepted :
        (nonce : String) (token : W.IdToken) (w : W.World) (id : Identity)
        → (Google.accept W p nonce token w).0 ≡ ok id
        → IsBound nonce (W.nonce token)
          × ((c : GoogleClaims) × (W.google_claims token ≡ ok c)
              × ((Google.with_groups W p c w).0 ≡ ok id))
    unfolding Google.accept Google.with_claims
    google-accepted nonce token w id h =
        elim (Bool-cases (not (nonce == "") && not (W.nonce token == nonce))) [
          | inl b ↦ ground arith
          | inr b ↦ elim (Outcome-cases (W.google_claims token)) [
            | inl (c, e) ↦ (IsBound-of nonce (W.nonce token) b, (c, e, ground arith))
            | inr (m, e) ↦ ground arith
          ]
        ]

  abbrev pub oauth_of : Provider W → Oauth W.Issuer
  oauth_of (oidc p) = p.oauth
  oauth_of (google p) = p.oauth

  abbrev pub audience_of : Provider W → String
  audience_of (oidc p) = p.audience
  audience_of (google p) = p.audience

  -- What the identity has from the claims of the verified token, and from the directory in this world.
  abbrev pub Claimed : Provider W → W.IdToken → W.World → Identity → Type 0
  Claimed (oidc p) token w id =
      (cs : Dict Any) × (W.claims token ≡ ok cs) × ClaimedOidc W p token cs id
  Claimed (google p) token w id =
      (c : GoogleClaims) × (W.google_claims token ≡ ok c) × Listed p c w id

  -- The world after the token was verified.
  abbrev pub verified_in : Provider W → String → String → W.World → W.World
  verified_in p code raw w =
      (W.verify (oauth_of p).endpoint (audience_of p) raw (W.exchange (oauth_of p) code w).1).1

  pub record Verified (p : Provider W) (code nonce : String) (w : W.World) (id : Identity)
      : Type 0 where
    pub token : W.IdToken
    pub source : TokenOf (oauth_of p) (audience_of p) code nonce w token
    pub claimed : Claimed p token (verified_in p code source.raw w) id

  pub authenticate-Verified :
      (p : Provider W) (code nonce : String) (w : W.World) (id : Identity)
      → (authenticate W p code nonce w).0 ≡ ok id
      → Verified p code nonce w id
  unfolding authenticate
  authenticate-Verified (oidc p) code nonce w id h =
      let (tokens, exchanged, h1) = oidc-exchanged p code nonce w id h in
      let (raw, token, given, signed, h2) = oidc-signed p nonce tokens _ id h1 in
      let (bound, claimed) = oidc-accepted p nonce token id h2 in
      record {
        token = token;
        source = record {
          tokens = tokens;
          exchanged = exchanged;
          raw = raw;
          given = given;
          signed = signed;
          bound = bound;
        };
        claimed = claimed;
      }
  authenticate-Verified (google p) code nonce w id h =
      let (tokens, exchanged, h1) = google-exchanged p code nonce w id h in
      let (raw, token, given, signed, h2) = google-signed p nonce tokens _ id h1 in
      let (bound, (c, e, h3)) = google-accepted p nonce token _ id h2 in
      record {
        token = token;
        source = record {
          tokens = tokens;
          exchanged = exchanged;
          raw = raw;
          given = given;
          signed = signed;
          bound = bound;
        };
        claimed = (c, e, google-grouped p c _ id h3);
      }
