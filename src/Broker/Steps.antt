-- ===== src/Broker/Steps.antt =====
-- The helpers of broker.go, handlers.go and signer.go.
use Prim.Native.Char.{code}
use kube_argus.Base.{ℕ, ◌+◌, ◌/◌, String, ◌<>◌, ◌==◌, Bool, ◌&&◌}
use kube_argus.Base.{none, some, List, [], ◌∷◌, ◌++◌, Result, is_empty, some_of}
use kube_argus.Base.{if◌then◌else◌, nat_eq, runes, is_space}
use kube_argus.Config.{Config, runes_eq}
use kube_argus.Model.{Membership}
use kube_argus.Store.Types.{GroupRef}
use kube_argus.Broker.Types.{TokenRequest, Response, http_error, redirect_with, tokens, IdClaims}
use kube_argus.Broker.Env.{Env}

-- `strings.Fields`: the words between spaces. `word` is the one that is being read.
unfoldable pub fields_from : List ℕ → List ℕ → List (List ℕ)
unfolding is_space
fields_from word [] = if is_empty word then [] else word ∷ []
fields_from word (r ∷ rs) =
    let after = fields_from [] rs in
    let longer = fields_from (word ++ r ∷ []) rs in
    if is_space r then (if is_empty word then after else word ∷ after) else longer

unfoldable pub scope_has : String → String → Bool
unfolding fields_from some_of
scope_has scope want = some_of (λ s. runes_eq s (runes want)) (fields_from [] (runes scope))

unfoldable pub gids : List Membership → List String
gids [] = []
gids (m ∷ ms) = m.gid ∷ gids ms

unfoldable pub to_group_refs : List Membership → List GroupRef
to_group_refs [] = []
to_group_refs (m ∷ ms) = record { gid = m.gid; name = m.name; domain = m.domain } ∷ to_group_refs ms

unfoldable pub from_group_refs : List GroupRef → List Membership
from_group_refs [] = []
from_group_refs (g ∷ gs) =
    record { gid = g.gid; name = g.name; domain = g.domain } ∷ from_group_refs gs

-- A parameter that is set only if its value is not empty.
abbrev pub unless_empty : String → String → List (String × String)
unless_empty k v = if v == "" then [] else (k, v) ∷ []

unfoldable pub client_id_of : TokenRequest → String
client_id_of r =
    if r.client_id == "" then elim r.basic [ none ↦ "" | some (u, _) ↦ u ] else r.client_id

unfoldable pub write_token_response : String → String → String → ℕ → Response
write_token_response access id refresh expires_in =
    tokens access id (if refresh == "" then none else some refresh) expires_in

-- `strings.TrimRight(s, "/")`
unfoldable pub trim_right_slash : String → String
trim_right_slash String.[] = ""
trim_right_slash (String.◌∷◌ c s) =
    let rest = trim_right_slash s in
    if nat_eq (code c) b'/' && rest == "" then "" else String.◌∷◌ c rest

-- `validClientSecret`: the form's secret, or the password of HTTP Basic.
abbrev pub secret_of : TokenRequest → String
secret_of r =
    if r.client_secret == ""
    then elim r.basic [ none ↦ r.client_secret | some (_, pw) ↦ pw ]
    else r.client_secret

unfoldable pub valid_client_secret : Config → TokenRequest → Bool
valid_client_secret c r = secret_of r == c.client_secret

module _ (E : Env) where
  unfoldable pub redirect_error : String → String → String → String → Response
  redirect_error redirect_uri state error desc =
      if E.url_parses redirect_uri
      then redirect_with redirect_uri
          (("error", error) ∷ (unless_empty "error_description" desc ++ unless_empty "state" state))
      else http_error 400 (error <> (": " <> desc))

  unfoldable pub verify_pkce : String → String → Bool
  verify_pkce verifier challenge = E.s256 verifier == challenge

  -- `signIDToken`: the issuer and the two times, in seconds, and then the library.
  unfoldable pub sign_id_token : String → ℕ → IdClaims → ℕ → Result String String
  sign_id_token issuer now c ttl =
      E.sign
        (record c { iss = issuer; iat = now / 1_000_000_000; exp = (now + ttl) / 1_000_000_000 })
