-- ===== src/Server/Start.antt =====
-- `run` of service/cmd/server/main.go up to the listener, and `New` of service/internal/store/store.go.
use kube_argus.Base.{
  not_negative, String, ◌==◌, Bool, not, ◌&&◌, Result, ok, err, Exec, if◌then◌else◌, ℤ, Option,
}
use kube_argus.Base.Dict.{Dict}
use kube_argus.Config.{Config}
use kube_argus.Config.Load.{Settings, StoreConfig, load}
use kube_argus.Store.Redis.Connect.{Options, new_redis}
use kube_argus.Idp.Calls.{Wiring}
use kube_argus.Idp.{Provider}
use kube_argus.Idp as Idp
use kube_argus.Broker.Signer.{Keys, Signer}
use kube_argus.Broker.Signer as Signing

-- The outside of the process. `clients` are the calls that build the two clients of the API server and
-- their scheme, `new_client` and `ping` are the client of Redis.
pub record Host : Type 1 where
  pub idp : Wiring
  pub keys : Keys
  pub Os : Type 0
  pub RedisClient : Type 0
  pub duration : String → Option ℤ
  pub quoted : String → String
  pub clients : Exec Os String (Unit {0})
  pub new_client : Options → RedisClient
  pub ping : RedisClient → Exec Os String (Unit {0})

-- What the handlers read of the configuration.
abbrev pub handlers_part : Settings → Config
handlers_part s = record {
  issuer = s.issuer;
  allowed_domains = s.allowed_domains;
  client_id = s.client_id;
  client_secret = s.client_secret;
  redirect_uris = s.redirect_uris;
  token_lifetime = not_negative s.token_lifetime;
  refresh_token_lifetime = not_negative s.refresh_token_lifetime;
}

module _ (H : Host) where
  pub data Backend : Type 0 where
    memory : Backend
    redis : H.RedisClient → Backend

  pub record World : Type 0 where
    pub idp : H.idp.World
    pub keys : H.keys.World
    pub os : H.Os

  pub record Running : Type 0 where
    pub settings : Settings
    pub backend : Backend
    pub provider : Provider H.idp
    pub signer : Signer H.keys
    pub tls : Bool

  abbrev pub as_redis : Result String H.RedisClient × H.Os → Result String Backend × H.Os
  as_redis (ok c, w) = (ok (redis c), w)
  as_redis (err e, w) = (err e, w)

  -- `store.New`
  unfoldable pub new_store : StoreConfig → Exec H.Os String Backend
  new_store s w =
      if s.backend == "redis" then as_redis (new_redis H.new_client H.ping s w) else (ok memory, w)

  -- The broker with its parts.
  abbrev pub assembled :
      Settings → Backend → Provider H.idp → Result String (Signer H.keys) → Result String Running
  assembled s b p (err e) = err e
  assembled s b p (ok g) = ok (record {
    settings = s;
    backend = b;
    provider = p;
    signer = g;
    tls = not (s.tls_cert_file == "") && not (s.tls_key_file == "");
  })

  -- From the store on.
  unfoldable pub with_provider : Settings → Backend → Exec World String Running
  with_provider s b w =
      let (r, i) = Idp.new H.idp H.quoted s.idp w.idp in
      elim r [
        | err e ↦ (err e, record w { idp = i })
        | ok p ↦
            let (g, k) = Signing.new H.keys (handlers_part s) s.id_token_signing_key w.keys in
            (assembled s b p g, record w { idp = i; keys = k })
      ]

  -- From the configuration on.
  unfoldable pub with_store : Settings → Exec World String Running
  with_store s w =
      let (c, o) = H.clients w.os in
      let (r, o') = new_store s.store o in
      elim c [
        | err e ↦ (err e, record w { os = o })
        | ok _ ↦ elim r [
          | err e ↦ (err e, record w { os = o' })
          | ok b ↦ with_provider s b (record w { os = o' })
        ]
      ]

  unfoldable pub start : Dict String → Exec World String Running
  start vars w = elim (load H.quoted H.duration vars) [ err e ↦ (err e, w) | ok s ↦ with_store s w ]
