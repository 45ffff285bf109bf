-- ===== src/Server/Routes.antt =====
-- The routes of `New` and the log of service/internal/server/server.go. `ServeMux` of net/http takes a
-- pattern without a wildcard for its own path alone, and one for GET for HEAD too; a path is as it has
-- cleaned it.
use kube_argus.Base.{ℕ, String, ◌==◌, Bool, ◌&&◌, ◌||◌, List, [], ◌∷◌, if◌then◌else◌}
use kube_argus.Config.{Config}
use kube_argus.Store.Contract.{Store}
use kube_argus.Broker.Types.{
  AuthorizeQuery, CallbackQuery, TokenRequest, Response, http_error, redirect_to, redirect_with,
  oauth_error, tokens, panics,
}
use kube_argus.Broker.Env.{Env}
use kube_argus.Broker.Signer.{Keys, Jwk, Signer, jwks}
use kube_argus.Broker.Discovery.{Metadata, discovery}
use kube_argus.Broker.Login.{authorize, callback}
use kube_argus.Broker.Session.{State}
use kube_argus.Broker.Token.{token}

pub data Handler : Type 0 where
  discovery_handler jwks_handler authorize_handler callback_handler token_handler healthz_handler :
      Handler

pub record Pattern : Type 0 where
  pub method : String
  pub path : String
  pub handler : Handler

abbrev pub patterns : List Pattern
patterns =
    record {
      method = "GET";
      path = "/.well-known/openid-configuration";
      handler = discovery_handler;
    }
    ∷ record { method = "GET"; path = "/jwks"; handler = jwks_handler }
    ∷ record { method = "GET"; path = "/authorize"; handler = authorize_handler }
    ∷ record { method = "GET"; path = "/callback"; handler = callback_handler }
    ∷ record { method = "POST"; path = "/token"; handler = token_handler }
    ∷ record { method = "GET"; path = "/healthz"; handler = healthz_handler }
    ∷ []

pub data Routed : Type 0 where
  to : Handler → Routed
  method_not_allowed not_found : Routed

abbrev pub allows : String → String → Bool
allows pattern method = pattern == method || (pattern == "GET" && method == "HEAD")

-- The pattern has another method: a later one may have this one.
abbrev pub refused_by : Routed → Routed
refused_by (to h) = to h
refused_by _ = method_not_allowed

-- The handler of a request. A path that only has patterns of other methods is answered 405.
unfoldable pub route_in : List Pattern → String → String → Routed
route_in [] method path = not_found
route_in (p ∷ ps) method path =
    let rest = route_in ps method path in
    if p.path == path
    then (if allows p.method method then to p.handler else refused_by rest)
    else rest

unfoldable pub route : String → String → Routed
unfolding route_in
route = route_in patterns

-- What a client asks: the method, the path, and what each handler reads of the rest.
pub record Request : Type 0 where
  pub method : String
  pub path : String
  pub authorize_query : AuthorizeQuery
  pub callback_query : CallbackQuery
  pub token_request : TokenRequest

pub data Answer (K : Keys) : Type 0 where
  metadata : Metadata → Answer K
  key_set : List (Jwk K) → Answer K
  response : Response → Answer K
  -- 200 with the text `ok`.
  healthy : Answer K
  refused : ℕ → Answer K

-- One line of the log.
pub record Line : Type 0 where
  pub method : String
  pub path : String
  pub status : ℕ

abbrev pub response_status : Response → ℕ
response_status (http_error n _) = n
response_status (redirect_to _) = 302
response_status (redirect_with _ _) = 302
response_status (oauth_error n _ _) = n
response_status (tokens _ _ _ _) = 200
response_status panics = 200

module _ (K : Keys) where
  -- What `statusWriter` has noted: 200, if the handler wrote no other status.
  abbrev pub status_of : Answer K → ℕ
  status_of (metadata _) = 200
  status_of (key_set _) = 200
  status_of (response r) = response_status r
  status_of healthy = 200
  status_of (refused n) = n

  -- The line that `logging` writes after the handler; a panic goes past it.
  unfoldable pub log_of : Request → Answer K → List Line
  log_of r (response panics) = []
  log_of r a =
      if r.path == "/healthz"
      then []
      else record { method = r.method; path = r.path; status = status_of a } ∷ []

  module _ (S : Store) (E : Env) (c : Config) (g : Signer K) where
    unfoldable pub handle : Handler → Request → State S E → Answer K × State S E
    handle discovery_handler r st = (metadata (discovery c), st)
    handle jwks_handler r st = (key_set (jwks K g), st)
    handle authorize_handler r st =
        let (a, st') = authorize S E c r.authorize_query st in (response a, st')
    handle callback_handler r st =
        let (a, st') = callback S E c r.callback_query st in (response a, st')
    handle token_handler r st = let (a, st') = token S E c r.token_request st in (response a, st')
    handle healthz_handler r st = (healthy, st)

    abbrev pub dispatch : Routed → Request → State S E → Answer K × State S E
    dispatch (to h) r st = handle h r st
    dispatch method_not_allowed r st = (refused 405, st)
    dispatch not_found r st = (refused 404, st)

    -- One request: the answer with its log, and the next state.
    unfoldable pub serve : Request → State S E → (Answer K × List Line) × State S E
    serve r st = let (a, st') = dispatch (route r.method r.path) r st in ((a, log_of r a), st')
