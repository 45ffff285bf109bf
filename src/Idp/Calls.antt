-- ===== src/Idp/Calls.antt =====
-- What service/internal/idp calls: the OAuth and OpenID Connect libraries, the file system, and Google's
-- Directory API. All of it is a parameter.
use kube_argus.Base.{ℕ, String, Bool, Option, List, Result, Exec}
use kube_argus.Base.Dict.{Dict}

-- A decoded JSON value, as far as the providers look into it.
mutual
  pub data Any : Type 0 where
    text : String → Any
    flag : Bool → Any
    array : Anys → Any
    other : Any

  pub data Anys : Type 0 where
    end : Anys
    item : Any → Anys → Anys

-- A group of the Directory API.
pub record Group : Type 0 where
  pub id : String
  pub name : String

-- The claims that the Google provider decodes.
pub record GoogleClaims : Type 0 where
  pub subject : String
  pub email : String
  pub email_verified : Bool
  pub hosted_domain : String
  pub name : String

-- `oauth2.Config`; the endpoint is that of the issuer.
pub record Oauth (Issuer : Type 0) : Type 0 where
  pub client_id : String
  pub client_secret : String
  pub redirect_url : String
  pub endpoint : Issuer
  pub scopes : List String

pub record Wiring : Type 1 where
  pub World : Type 0
  pub Issuer : Type 0
  pub Tokens : Type 0
  pub IdToken : Type 0
  pub JwtConfig : Type 0
  pub Directory : Type 0
  -- `oidc.NewProvider`
  pub discover : String → Exec World String Issuer
  pub auth_code_url : Oauth Issuer → String → String → String
  pub exchange : Oauth Issuer → String → Exec World String Tokens
  -- `tok.Extra("id_token").(string)`
  pub extra_id_token : Tokens → Option String
  -- The verifier of an issuer for a client.
  pub verify : Issuer → String → String → Exec World String IdToken
  pub nonce : IdToken → String
  pub subject : IdToken → String
  pub claims : IdToken → Result String (Dict Any)
  pub google_claims : IdToken → Result String GoogleClaims
  pub read_file : String → Exec World String String
  -- The JSON of the Application Default Credentials.
  pub default_credentials : Exec World String String
  -- `google.JWTConfigFromJSON`
  pub jwt_config : String → Result String JwtConfig
  -- `directory.NewService` with the token source of the key and its subject.
  pub new_directory : JwtConfig → String → Exec World String Directory
  -- `Pages` of the list of groups of a user, `maxResults` a page: the pages that the callback gets, and
  -- the error, if one ends them.
  pub pages : Directory → String → ℕ → World → List (List Group) × Option String × World
