-- ===== src/Proxy.antt =====
-- service/internal/proxy/proxy.go: a verified id_token is swapped for the ServiceAccount token of its
-- user before the request goes on to the API server. Each request runs alone.
pub mod Start
pub mod Cache
pub mod Fresh
pub mod Schedule
pub mod Swap
pub mod Isolation
pub mod Serving
pub mod Wired
pub mod Backed
use Prim.Native.Char.{code}
use kube_argus.Base.{
  ℕ, ◌+◌, String, ◌==◌, ◌<>◌, Bool, true, false, not, ◌&&◌, Option, none, some, List, [], ◌∷◌, map,
  Result, ok, err, Exec, if◌then◌else◌, nat_eq, ltb,
}
use kube_argus.Base.Dict.{Dict, lookup, insert, remove}
use kube_argus.Model.{Token}
use kube_argus.K8s.SanitizeName.{sanitize_name}

-- A claim of an id_token: a text, or another JSON value.
pub data Claim : Type 0 where
  text : String → Claim
  other : Claim

-- What the proxy is wired to. `canonical` is `http.CanonicalHeaderKey`. A token whose claims do not
-- parse has none.
pub record Wiring : Type 1 where
  pub World : Type 0
  pub clock : World → ℕ
  pub IdToken : Type 0
  pub verify : String → Exec World String IdToken
  pub claims : IdToken → Option (Dict Claim)
  pub mint : String → Exec World String Token
  pub canonical : String → String

pub record CacheEntry : Type 0 where
  pub token : String
  pub exp : ℕ

-- `tokenCache` and the two settings.
pub record Proxy : Type 0 where
  pub cache : Dict CacheEntry
  pub ttl : ℕ
  pub username_claim : String

-- The headers are the map of net/http: the values of each key.
pub record Request : Type 0 where
  pub path : String
  pub headers : Dict (List String)

-- What the client gets: 200 with the text `ok`, 502, or what the API server answers to a request.
pub data Outcome : Type 0 where
  healthy : Outcome
  bad_gateway : Outcome
  forwarded : Request → Outcome

-- `strings.TrimPrefix` if `strings.HasPrefix`.
unfoldable pub after_prefix : String → String → Option String
after_prefix String.[] s = some s
after_prefix (String.◌∷◌ c p) String.[] = none
after_prefix (String.◌∷◌ c p) (String.◌∷◌ d s) =
    let rest = after_prefix p s in if nat_eq (code c) (code d) then rest else none

-- `Header.Get`
abbrev pub first_of : Option (List String) → String
first_of none = ""
first_of (some []) = ""
first_of (some (v ∷ vs)) = v

unfoldable pub bearer : Request → String
bearer r = elim (after_prefix "Bearer " (first_of (lookup "Authorization" r.headers))) [
  | none ↦ ""
  | some t ↦ t
]

-- `user, _ := claims[p.usernameClaim].(string)`
abbrev pub text_of_claim : Option Claim → String
text_of_claim none = ""
text_of_claim (some other) = ""
text_of_claim (some (text t)) = t

module _ (W : Wiring) where
  unfoldable pub is_impersonation : String → Bool
  is_impersonation h = elim (after_prefix "Impersonate-" (W.canonical h)) [
    | none ↦ false
    | some _ ↦ true
  ]

  -- `for h := range r.Header`: over the keys as they were, each deletion by its canonical key.
  unfoldable pub drop_impersonation : Dict (List String) → Dict (List String) → Dict (List String)
  drop_impersonation [] headers = headers
  drop_impersonation ((h, _) ∷ hs) headers =
      drop_impersonation hs (if is_impersonation h then remove (W.canonical h) headers else headers)

  -- The request with the bearer replaced.
  unfoldable pub rewrite : String → Request → Request
  rewrite sa_token r =
      let headers = insert "Authorization" (("Bearer " <> sa_token) ∷ []) r.headers in
      record r { headers = drop_impersonation headers headers }

  -- From the miss on.
  unfoldable pub refill : String → Exec (Proxy × W.World) String String
  refill sa (p, w) =
      let (minted, w') = W.mint sa w in
      elim minted [
        | err e ↦ (err e, (p, w'))
        | ok t ↦ (
          ok t.access_token,
          (
            record p {
              cache =
                  insert sa (record { token = t.access_token; exp = W.clock w' + p.ttl }) p.cache;
            },
            w',
          ),
        )
      ]

  unfoldable pub token : String → Exec (Proxy × W.World) String String
  token sa (p, w) = elim (lookup sa p.cache) [
    | none ↦ refill sa (p, w)
    | some e ↦ if ltb (W.clock w) e.exp then (ok e.token, (p, w)) else refill sa (p, w)
  ]

  -- The user of an id_token, empty if it has none.
  unfoldable pub user_of : Proxy → W.IdToken → String
  user_of p id = elim (W.claims id) [
    | none ↦ ""
    | some cs ↦ text_of_claim (lookup p.username_claim cs)
  ]

  -- `swap`: none if the mint failed, or else the request to forward.
  unfoldable pub swap : Request → W.IdToken → Exec (Proxy × W.World) String Request
  swap r id (p, w) =
      let user = user_of p id in
      let (t, st) = token (sanitize_name user) (p, w) in
      if user == ""
      then (ok r, (p, w))
      else elim t [ err e ↦ (err e, st) | ok sa_token ↦ (ok (rewrite sa_token r), st) ]

  -- From the verification on.
  unfoldable pub authenticate : String → Request → Proxy × W.World → Outcome × (Proxy × W.World)
  authenticate raw r (p, w) =
      let (verified, w') = W.verify raw w in
      elim verified [
        | err _ ↦ (forwarded r, (p, w'))
        | ok id ↦
            let (swapped, st) = swap r id (p, w') in
            elim swapped [ err _ ↦ (bad_gateway, st) | ok r' ↦ (forwarded r', st) ]
      ]

  unfoldable pub serve : Request → Proxy × W.World → Outcome × (Proxy × W.World)
  serve r st =
      let raw = bearer r in
      if r.path == "/healthz" && raw == ""
      then (healthy, st)
      else if not (raw == "")
      then authenticate raw r st
      else (forwarded r, st)
