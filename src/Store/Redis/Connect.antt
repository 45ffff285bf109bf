-- ===== src/Store/Redis/Connect.antt =====
-- `newRedis` of service/internal/store/redis.go, over the client of Redis.
use kube_argus.Base.{String, Bool, ok, err, Exec, ℤ}
use kube_argus.Config.Load.{StoreConfig}

-- `redis.Options`; with `tls` the version is 1.2 or later.
pub record Options : Type 0 where
  pub addr : String
  pub password : String
  pub db : ℤ
  pub tls : Bool

unfoldable pub options : StoreConfig → Options
options cfg = record {
  addr = cfg.redis_addr;
  password = cfg.redis_password;
  db = cfg.redis_db;
  tls = cfg.redis_tls;
}

-- A client is only given out once it has answered a ping, for which it has five seconds.
unfoldable pub new_redis :
    {Client S : Type 0} (new_client : Options → Client)
    → (ping : Client → Exec S String (Unit {0})) → StoreConfig
    → Exec S String Client
new_redis new_client ping cfg s =
    let (r, s') = ping (new_client (options cfg)) s in
    elim r [ err e ↦ (err e, s') | ok _ ↦ (ok (new_client (options cfg)), s') ]
