-- ===== src/Idp.antt =====
-- The identity providers: service/internal/idp/idp.go, with oidc/oidc.go and google/google.go below it.
pub mod Calls
pub mod Oidc
pub mod Google
pub mod Pages
pub mod Claimed
pub mod Verified
pub mod Made
use kube_argus.Base.{String, ◌<>◌, ◌==◌, Exec, Result, ok, err, if◌then◌else◌}
use kube_argus.Model.{Identity}
use kube_argus.Config.Load.{IdpConfig}
use kube_argus.Idp.Calls.{Wiring}
use kube_argus.Idp.Oidc.{OidcProvider}
use kube_argus.Idp.Google.{GoogleProvider}

module _ (W : Wiring) where
  -- The two types that implement `Provider`.
  pub data Provider : Type 0 where
    oidc : OidcProvider W → Provider
    google : GoogleProvider W → Provider

  abbrev pub as_oidc : Result String (OidcProvider W) × W.World → Result String Provider × W.World
  as_oidc (ok p, w) = (ok (oidc p), w)
  as_oidc (err e, w) = (err e, w)

  abbrev pub as_google :
      Result String (GoogleProvider W) × W.World → Result String Provider × W.World
  as_google (ok p, w) = (ok (google p), w)
  as_google (err e, w) = (err e, w)

  -- `New`. `quoted` is `%q`.
  unfoldable pub new : (String → String) → IdpConfig → Exec W.World String Provider
  new quoted cfg w =
      if cfg.kind == "google"
      then as_google (Google.new W cfg w)
      else if cfg.kind == "oidc"
      then as_oidc (Oidc.new W cfg w)
      else (err ("unknown IDP_TYPE " <> quoted cfg.kind), w)

  unfoldable pub auth_url : Provider → String → String → String
  auth_url (oidc p) state nonce = Oidc.auth_url W p state nonce
  auth_url (google p) state nonce = Google.auth_url W p state nonce

  unfoldable pub authenticate : Provider → String → String → Exec W.World String Identity
  authenticate (oidc p) code nonce = Oidc.authenticate W p code nonce
  authenticate (google p) code nonce = Google.authenticate W p code nonce
