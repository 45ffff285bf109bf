-- ===== src/Broker/Env.antt =====
-- What the broker is wired to: the identity provider, the binder, the minter, the signing library,
-- the source of random tokens, the digest of PKCE and the clock.
use kube_argus.Base.{ℕ, String, Bool, Result, Exec}
use kube_argus.Model.{Identity, Token}
use kube_argus.Broker.Types.{IdClaims}

pub record Env : Type 1 where
  pub World : Type 0
  -- Nanoseconds since the epoch.
  pub clock : World → ℕ
  pub rand_token : World → String × World
  pub auth_url : String → String → String
  pub authenticate : String → String → Exec World String Identity
  pub upsert : Identity → Exec World String String
  pub wait_binded : String → Exec World String (Unit {0})
  pub mint : String → Exec World String Token
  -- The encoding and the signature of the claims.
  pub sign : IdClaims → Result String String
  -- `base64.RawURLEncoding` of the SHA-256 of the text.
  pub s256 : String → String
  -- Whether `url.Parse` accepts the text.
  pub url_parses : String → Bool
  -- A chosen rune of the simple case folding orbit.
  pub fold : ℕ → ℕ
