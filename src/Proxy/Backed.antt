-- ===== src/Proxy/Backed.antt =====
-- What stands behind a request that the proxy of service/cmd/proxy/main.go sends on.
use kube_argus.Base.{ℕ, ◌+◌, ◌*◌, ◌≤◌, ◌≡◌, ◌≢◌, ◌∙◌, ap, sym, ◌⊎◌, inl, inr, String, [], ok, pos}
use kube_argus.K8s.SanitizeName.{sanitize_name}
use kube_argus.K8s.Binder.{Cluster}
use kube_argus.K8s.Binder.Minting.{mint-token, mint-state}
use kube_argus.Proxy.{Proxy, Request, forwarded, bearer, user_of, token, serve}
use kube_argus.Proxy.Start.{ProxySettings}
use kube_argus.Proxy.Cache.{IsSound}
use kube_argus.Proxy.Fresh.{MintedAt, Reaches, reached, token-Fresh}
use kube_argus.Proxy.Swap.{Swapped}
use kube_argus.Proxy.Isolation.{ForUser, Unswapped, serve-Isolated}
use kube_argus.Proxy.Serving.{Serving, Serving-Reaches}
use kube_argus.Proxy.Wired.{Verifier, World, wired}

module _ (V : Verifier) (C : Cluster) (s : ProxySettings) (n : ℕ) where
  -- The token was created for the ServiceAccount, in the namespace of the settings, with no audience
  -- and for so many seconds, and that was over at the time `at`.
  pub record CreatedAt (sa t : String) (at : ℕ) : Type 0 where
    pub cluster : C.State
    pub created : (C.create_token s.namespace sa [] n cluster).0 ≡ ok t
    pub time : C.clock (C.create_token s.namespace sa [] n cluster).1 ≡ at

  -- When the proxy has the token, after the verification.
  abbrev asked_at : String → Request → Proxy → World V C → ℕ
  asked_at sa r p w =
      let v = ((wired V C s n).verify (bearer r) w).1 in
      C.clock (token (wired V C s n) sa (p, v)).1.1.cluster

  -- What stands behind it.
  pub record Backed (r : Request) (p : Proxy) (w : World V C) (r' : Request) : Type 0 where
    pub id : V.IdToken
    pub sa_token : String
    pub at : ℕ
    pub verified :
        (V.verify s.jwks_url s.issuer s.client_id (C.clock w.cluster) (bearer r) w.keys).0 ≡ ok id
    pub named : user_of (wired V C s n) p id ≢ ""
    pub created : CreatedAt (sanitize_name (user_of (wired V C s n) p id)) sa_token at
    pub fresh :
        5 * asked_at (sanitize_name (user_of (wired V C s n) p id)) r p w
        ≤ 5 * at + 4 * (n * 1_000_000_000)
    pub swapped : Swapped (wired V C s n) r sa_token r'

  mint-CreatedAt : (sa t : String) (at : ℕ) → MintedAt (wired V C s n) sa t at → CreatedAt sa t at
  mint-CreatedAt sa t at m = record {
    cluster = m.world.cluster;
    created = mint-token C s.namespace [] n sa m.world.cluster m.minted m.mint ∙ ap ok m.same;
    time = ap C.clock (sym (mint-state C s.namespace [] n sa m.world.cluster)) ∙ m.time;
  }

  Reaches-IsSound : (p : Proxy) → Reaches (wired V C s n) s p → IsSound (wired V C s n) p.cache
  Reaches-IsSound p h sa e l =
      let (at, m, x) = (reached (wired V C s n) s p h).0 sa e l in
      record { world = m.world; minted = m.minted; mint = m.mint; same = m.same }

  ForUser-Backed :
      (r r' : Request) (p : Proxy) (w : World V C)
      → s.exp_secs ≡ pos n
      → n ≤ 9_223_372_036
      → Reaches (wired V C s n) s p
      → ForUser (wired V C s n) r p w r'
      → Backed r p w r'
  ForUser-Backed r r' p w e l h u =
      let v = ((wired V C s n).verify (bearer r) w).1 in
      let sa = sanitize_name (user_of (wired V C s n) p u.id) in
      let (at, m, f) = token-Fresh (wired V C s n) s n p sa u.sa_token v e l h u.answered in
      record {
        id = u.id;
        sa_token = u.sa_token;
        at = at;
        verified = u.verified;
        named = u.named;
        created = mint-CreatedAt sa u.sa_token at m;
        fresh = f;
        swapped = u.swapped;
      }

  -- What a proxy sends on, that asks for tokens of `n` seconds and serves one request after the other,
  -- is this: the bearer verifies against the issuer, the client and the keys of the settings, and names
  -- a user; the token in its place was created in the namespace of the settings, for the ServiceAccount
  -- of that user's name, for `n` seconds, and at most four fifths of that ago when the proxy had it from
  -- its cache or the API server; no canonical header impersonates, and path and other headers are those
  -- that came. Or it is the request as it came, and then it had no bearer, one that does not verify, or
  -- one that names no user. The bound on `n` is that of a duration.
  pub serve-Backed :
      (r r' : Request) (p : Proxy) (w : World V C)
      → s.exp_secs ≡ pos n
      → n ≤ 9_223_372_036
      → Serving (wired V C s n) s p
      → (serve (wired V C s n) r (p, w)).0 ≡ forwarded r'
      → ((r' ≡ r) × Unswapped (wired V C s n) r p w) ⊎ Backed r p w r'
  serve-Backed r r' p w e l h f =
      let reach = Serving-Reaches (wired V C s n) s p h in
      let sound = Reaches-IsSound p reach in
      elim ((serve-Isolated (wired V C s n) r p w sound).sent r' f) [
        | inl same ↦ inl same
        | inr u ↦ inr (ForUser-Backed r r' p w e l reach u)
      ]
