-- ===== src/Broker/Discovery.antt =====
-- `Discovery` of service/internal/broker/handlers.go: the metadata of the OpenID provider.
use kube_argus.Base.{String, ◌<>◌, List, [], ◌∷◌}
use kube_argus.Config.{Config}
use kube_argus.Broker.Steps.{trim_right_slash}

pub record Metadata : Type 0 where
  pub issuer : String
  pub authorization_endpoint : String
  pub token_endpoint : String
  pub jwks_uri : String
  pub response_types_supported : List String
  pub grant_types_supported : List String
  pub code_challenge_methods_supported : List String
  pub scopes_supported : List String
  pub claims_supported : List String
  pub id_token_signing_alg_values_supported : List String
  pub subject_types_supported : List String
  pub token_endpoint_auth_methods_supported : List String

unfoldable pub discovery : Config → Metadata
discovery c =
    let iss = trim_right_slash c.issuer in
    record {
      issuer = iss;
      authorization_endpoint = iss <> "/authorize";
      token_endpoint = iss <> "/token";
      jwks_uri = iss <> "/jwks";
      response_types_supported = "code" ∷ [];
      grant_types_supported = "authorization_code" ∷ "refresh_token" ∷ [];
      code_challenge_methods_supported = "S256" ∷ [];
      scopes_supported = "openid" ∷ "email" ∷ "profile" ∷ "groups" ∷ "offline_access" ∷ [];
      claims_supported = "sub" ∷ "email" ∷ "email_verified" ∷ "name" ∷ "groups" ∷ [];
      id_token_signing_alg_values_supported = "RS256" ∷ [];
      subject_types_supported = "public" ∷ [];
      token_endpoint_auth_methods_supported =
          "none" ∷ "client_secret_post" ∷ "client_secret_basic" ∷ [];
    }
