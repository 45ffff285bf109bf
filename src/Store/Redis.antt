-- ===== src/Store/Redis.antt =====
-- `redisStore` of service/internal/store/redis.go, over the redis client and encoding/json.
pub mod Keys
pub mod Commands
pub mod Refines
pub mod Connect
use kube_argus.Base.{ℕ, String, ◌<>◌, Option, Result, ok, err, Exec}
use kube_argus.Store.Types.{AuthRequest, CodeGrant, RefreshGrant, StoreError, not_found, backend}
use kube_argus.Store.Contract.{Store}

-- What a call of redis may answer but a value: `redis.Nil`, or another error.
pub data RedisError : Type 0 where
  nil : RedisError
  failure : String → RedisError

-- `SET` with a time to live, and `GETDEL`. A call takes its time first.
pub record Client : Type 1 where
  pub State : Type 0
  pub set : ℕ → String → String → ℕ → Exec State String (Unit {0})
  pub get_del : ℕ → String → Exec State RedisError String

-- `json.Marshal` and `json.Unmarshal` at one type.
pub record Codec (V : Type 0) : Type 0 where
  pub marshal : V → Result String String
  pub unmarshal : String → Result String V

pub record Codecs : Type 0 where
  pub auth : Codec AuthRequest
  pub codes : Codec CodeGrant
  pub refresh : Codec RefreshGrant

module _ (R : Client) where
  module _ {V : Type 0} (J : Codec V) where
    -- The end of `save`, for the encoded value.
    abbrev pub put : ℕ → String → String → ℕ → Exec R.State StoreError (Unit {0})
    put now key b ttl s =
        let (r, s') = R.set now key b ttl s in
        elim r [ err e ↦ (err (backend e), s') | ok u ↦ (ok u, s') ]

    unfoldable pub save : ℕ → String → V → ℕ → Exec R.State StoreError (Unit {0})
    save now key v ttl s = elim (J.marshal v) [
      | err e ↦ (err (backend e), s)
      | ok b ↦ put now key b ttl s
    ]

    abbrev pub decoded : Result String V → Result StoreError V
    decoded (ok v) = ok v
    decoded (err e) = err (backend e)

    unfoldable pub take : ℕ → String → Exec R.State StoreError V
    take now key s =
        let (r, s') = R.get_del now key s in
        elim r [
          | err nil ↦ (err not_found, s')
          | err (failure e) ↦ (err (backend e), s')
          | ok b ↦ (decoded (J.unmarshal b), s')
        ]

  -- The six methods, each under its prefix.
  abbrev pub redis_store : Codecs → Store
  redis_store J = record {
    State = R.State;
    save_auth_request = λ now key. save J.auth now ("auth:" <> key);
    take_auth_request = λ now key. take J.auth now ("auth:" <> key);
    save_code = λ now code. save J.codes now ("code:" <> code);
    take_code = λ now code. take J.codes now ("code:" <> code);
    save_refresh = λ now token. save J.refresh now ("refresh:" <> token);
    take_refresh = λ now token. take J.refresh now ("refresh:" <> token);
  }
