-- ===== src/Lib.antt =====
-- Verification of kube-argus: the operator that binds users to roles, and the broker that logs them in.
--
-- The program. The broker (service/internal/broker) is an OpenID provider. /authorize stores a pending
-- request (service/internal/store) and sends the browser to the identity provider
-- (service/internal/idp); /callback has the provider verify the identity, writes a
-- UserAuthenticationBind (service/internal/k8s), waits until the operator has bound it, mints a
-- ServiceAccount token, and stores a code; /token exchanges the code, or a refresh token, once. The
-- operator (operator/internal/controller) reconciles each UserAuthenticationBind: it creates a binding
-- for every role whose annotated group is a membership of the bind, deletes the other bindings with its
-- label, and revokes them all when the time to live is over or the bind is deleted. The proxy
-- (service/internal/proxy) swaps the id_token of a request for the ServiceAccount token of its user. The
-- broker reads its configuration from the environment (service/internal/config).
--
-- The files.
--   Base and below: Boolean tests, lists, texts by code points, Go's (T, error) with state, maps, and
--     signed integers with the wrap-around of int64.
--   Operator/Types: operator/api/v1/userauthenticationbind_types.go. Operator/Api: the client of the
--     API server, an interface (Bindings, Api) with its documented behaviour (IsBindings).
--     Operator/Sync, Operator/Steps and Operator/Reconcile:
--     operator/internal/controller/userauthenticationbind_controller.go. syncBindings and deleteOwned
--     have one text twice, for ClusterRoleBindings and RoleBindings; sync_kind and delete_kind have
--     it once, for a Kind. Reconcile is cut at its returns: reconcile, reconcile_read,
--     reconcile_live, expire, establish, sync_and_converge, converge. Below: Sync/Creating and
--     Sync/Clearing (the two loops), Sync/Released and Sync/Synced (both together), Reconcile/Reads
--     (how each begins), Reconcile/Revoke (expiry and deletion), Reconcile/Grant, Reconcile/Bound
--     and Reconcile/Ends (how a reconcile of a live bind ends), Reconcile/Settle (when it writes
--     nothing), Reconcile/Stale (two writes against one baseline), Reconcile/Phases,
--     Reconcile/Stages, Reconcile/Progress and Reconcile/Rounds (the way of a bind to its end over
--     several reconciles).
--     Operator/Manager: the options that operator/cmd/main.go makes of its flags.
--   Store/Types and Store/Contract: service/internal/store/store.go, the Store interface and its laws
--     over an abstract view. Store/Memory: service/internal/store/memory.go; Memory/Laws fills the
--     laws, Memory/Sweep, Memory/Events and Memory/Schedule are about the background sweep.
--     Store/Redis: service/internal/store/redis.go, over SET, GETDEL and encoding/json, which are
--     parameters; Redis/Keys is about its prefixes, Redis/Commands about one save and one take,
--     Redis/Refines fills the laws, and Redis/Connect is newRedis.
--   Model: service/internal/model/model.go.
--   Config: service/internal/config/config.go. Config itself is the part of the configuration that the
--     handlers read. Config/Environ: env, envInt and envBool over a map of variables, with Atoi and
--     ParseBool; Environ/Decimal is about numbers in decimal. Config/Split: splitCSV with Split, TrimSpace
--     and Join; Split/Items and Split/Joined are about its entries. Config/Load: the whole configuration
--     (Settings), Load and validate; Load/Validate, Load/Defaults and Load/Sufficient are about what is
--     accepted, Load/Lifetimes about the two lifetimes.
--   Idp: service/internal/idp/idp.go; Idp/Oidc is oidc/oidc.go and Idp/Google is google/google.go below it.
--     Idp/Calls is what they call, all parameters: the OAuth and OpenID Connect libraries, the file system
--     and Google's Directory API. Oidc/Email, Oidc/Groups and Idp/Pages are about domains and groups,
--     Idp/Claimed about what the claims of a token give, Idp/Verified about the token behind an
--     identity, and Idp/Made about the client and the issuer of a provider that New has made.
--   K8s/SanitizeName: SanitizeName of service/internal/k8s/bind.go. K8s/Binder: Upsert and WaitBinded of
--     the same file, and Mint of service/internal/k8s/token.go; Binder/Renewal joins Upsert with the
--     operator's expiry, Binder/Waiting is about the poll, Binder/Minting about Mint.
--   Proxy: service/internal/proxy/proxy.go. Proxy/Cache is about its token cache, Proxy/Swap about the
--     headers, Proxy/Isolation about a whole request, Proxy/Fresh about the age of tokens, Proxy/Serving
--     about one request after the other. Proxy/Start is the settings of service/cmd/proxy/main.go,
--     Proxy/Wired how it puts the proxy over go-oidc, a parameter, and K8s/Binder, and Proxy/Backed is
--     about a request through all of them. Proxy/Schedule has the cache as steps of callers that
--     interleave; Schedule/Owned is about every order of them.
--   Broker/Types, Broker/Steps, Broker/Session, Broker/Login and Broker/Token:
--     service/internal/broker/handlers.go, broker.go and signer.go. Broker/Env is what the broker is
--     wired to: the provider, the binder, the minter, the signing library, SHA-256, url.Parse and
--     the random tokens. Broker/Discovery is the metadata, Broker/Signer the reading of the signing
--     key, with Signer/Shared and Signer/Replicas about its replicas. Login/Registered and Login/Admission are about
--     /authorize; Login/Issue, Login/Answers and Login/Callback about /callback; Token/Exchange and
--     Token/Rotation about the two grants of /token, Token/Roundtrip about both ends of a code.
--   Server/Wired: the broker over Idp and K8s/Binder, as service/cmd/server/main.go wires it; Server/Chain
--     is about a login over all of them. Server/Start: the start of the same program; Server/Fits and
--     Server/Known are about what then runs. Server/Routes: service/internal/server/server.go;
--     Server/Endpoints joins the routes with the metadata.
--   Tests: concrete components and the theorems at concrete inputs.
--
-- The state. A handler or a reconcile is a function from the state to its answer and the next state;
-- what was written before an error stays written. One reconcile and one request run alone; the store's
-- methods interleave in Store/Memory/Events, and the steps of the token cache in Proxy/Schedule. Times
-- and durations are numbers of nanoseconds since the epoch, which no bound limits; the durations that the
-- configuration computes are signed and wrap around at 64 bits, and the handlers take those that are not
-- negative. The two readings of the clock in Reconcile are two arguments. Each loop is a recursion on the
-- list or the text that it walks; only the printing of a number runs on fuel, its value plus one, and a
-- number has no more digits than that. The poll of WaitBinded takes the number of ticks that the ticker
-- gives before the deadline, any number. The product with 0.8 that gives the proxy its cache lifetime is
-- exact for numbers up to 2 ^ 50.
--
-- The laws of the redis client are about times to live of whole milliseconds, at least one; zero, which
-- the client takes for no expiry, is outside them.
--
-- Not modelled: the listeners and their shutdown, the clients of the API server, SetupWithManager and the
-- life of the manager, the time limits of the HTTP server, generated code and the scheme, logging beyond
-- the lines of the HTTP server, and HTTP beyond the parameters, the status and the text of an answer.
-- time.ParseDuration, %q, base64, hashes, keys and signatures are parameters. A path is as ServeMux has
-- cleaned it, and a text of the environment is Unicode.
pub mod Base
pub mod K8s
pub mod Store
pub mod Operator
pub mod Model
pub mod Config
pub mod Idp
pub mod Broker
pub mod Proxy
pub mod Server
mod Tests
