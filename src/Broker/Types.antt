-- ===== src/Broker/Types.antt =====
-- Requests, responses and claims of the broker's handlers.
use kube_argus.Base.{ℕ, String, Bool, Option, List}

-- The query of /authorize; a parameter that is missing is the empty text.
pub record AuthorizeQuery : Type 0 where
  pub client_id : String
  pub redirect_uri : String
  pub state : String
  pub response_type : String
  pub scope : String
  pub nonce : String
  pub code_challenge : String
  pub code_challenge_method : String

-- The query of /callback.
pub record CallbackQuery : Type 0 where
  pub state : String
  pub error : String
  pub error_description : String
  pub code : String

-- The request to /token: whether its form parses, the form, and the user and password of HTTP Basic.
pub record TokenRequest : Type 0 where
  pub form_parses : Bool
  pub grant_type : String
  pub client_id : String
  pub client_secret : String
  pub code : String
  pub redirect_uri : String
  pub code_verifier : String
  pub refresh_token : String
  pub basic : Option (String × String)

-- What a handler writes. `redirect_with` is a redirect to the URI with these query parameters set in
-- it, `redirect_to` one to a URL as it is. The refresh token is left out when it is empty.
pub data Response : Type 0 where
  http_error : ℕ → String → Response
  redirect_to : String → Response
  redirect_with : String → List (String × String) → Response
  oauth_error : ℕ → String → String → Response
  tokens : String → String → Option String → ℕ → Response
  panics : Response

pub record IdClaims : Type 0 where
  pub iss : String
  pub sub : String
  pub aud : String
  pub exp : ℕ
  pub iat : ℕ
  pub nonce : String
  pub email : String
  pub email_verified : Bool
  pub name : String
  pub groups : List String

pub record Issued : Type 0 where
  pub access : String
  pub id : String
  pub refresh : String
  pub expires_in : ℕ
