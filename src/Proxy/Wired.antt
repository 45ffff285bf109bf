-- ===== src/Proxy/Wired.antt =====
-- The proxy as `run` of service/cmd/proxy/main.go wires it: the verifier of go-oidc for the issuer and
-- the client of the settings, with the keys at the JWKS URL, and the minter of service/internal/k8s.
use kube_argus.Base.{ℕ, String, Option, [], Exec}
use kube_argus.Base.Dict.{Dict}
use kube_argus.K8s.Binder.{Cluster, mint}
use kube_argus.Proxy.{Claim, Wiring}
use kube_argus.Proxy.Start.{ProxySettings}

-- `NewRemoteKeySet`, `NewVerifier` and `Verify` of go-oidc, and `http.CanonicalHeaderKey`. The
-- arguments of `verify` are the JWKS URL, the issuer, the client id, the time and the raw token.
pub record Verifier : Type 1 where
  pub Keys : Type 0
  pub IdToken : Type 0
  pub verify : String → String → String → ℕ → String → Exec Keys String IdToken
  pub claims : IdToken → Option (Dict Claim)
  pub canonical : String → String

module _ (V : Verifier) (C : Cluster) where
  pub record World : Type 0 where
    pub keys : V.Keys
    pub cluster : C.State

  -- For tokens of so many seconds; `nil` are no audiences.
  abbrev pub wired : ProxySettings → ℕ → Wiring
  wired s seconds = record {
    World = World;
    clock = λ w. C.clock w.cluster;
    IdToken = V.IdToken;
    verify = λ raw w.
        let (r, k) = V.verify s.jwks_url s.issuer s.client_id (C.clock w.cluster) raw w.keys in
        (r, record w { keys = k });
    claims = V.claims;
    mint = λ sa w.
        let (r, c) = mint C s.namespace [] seconds sa w.cluster in (r, record w { cluster = c });
    canonical = V.canonical;
  }
