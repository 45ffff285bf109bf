-- ===== src/Idp/Made.antt =====
-- What `New` of service/internal/idp/idp.go makes of a configuration, and so whom a login was verified
-- for.
use kube_argus.Base.{String, ◌==◌, ◌≡◌, refl, true, false, Result, ok, err, arith, if◌then◌else◌}
use kube_argus.Config.Load.{IdpConfig}
use kube_argus.Idp.Calls.{Wiring}
use kube_argus.Idp.Oidc
use kube_argus.Idp.Google
use kube_argus.Idp.{Provider, oidc, google, as_oidc, as_google, new}
use kube_argus.Idp.Verified.{oauth_of, audience_of, Verified}

module _ (W : Wiring) where
  -- The provider has the client of the configuration and the issuer that was discovered for it.
  pub record MadeFor (cfg : IdpConfig) (w : W.World) (p : Provider W) : Type 0 where
    pub discovered : (W.discover cfg.issuer w).0 ≡ ok (oauth_of W p).endpoint
    pub client : (oauth_of W p).client_id ≡ cfg.client_id
    pub audience : audience_of W p ≡ cfg.client_id

  pub as_oidc-ok :
      (x : Result String (Oidc.OidcProvider W) × W.World) (p : Provider W)
      → (as_oidc W x).0 ≡ ok p
      → (o : Oidc.OidcProvider W) × (x.0 ≡ ok o) × (oidc o ≡ p)
  as_oidc-ok (ok o, w) p h = (o, refl, ground arith)
  as_oidc-ok (err e, w) p h = ground arith

  pub as_google-ok :
      (x : Result String (Google.GoogleProvider W) × W.World) (p : Provider W)
      → (as_google W x).0 ≡ ok p
      → (g : Google.GoogleProvider W) × (x.0 ≡ ok g) × (google g ≡ p)
  as_google-ok (ok o, w) p h = (o, refl, ground arith)
  as_google-ok (err e, w) p h = ground arith

  pub new-oidc :
      (quoted : String → String) (i : IdpConfig) (w : W.World)
      → (i.kind == "google") ≡ false
      → (i.kind == "oidc") ≡ true
      → new W quoted i w ≡ as_oidc W (Oidc.new W i w)
  unfolding new
  new-oidc quoted i w e f = rw (e, f, if◌then◌else◌) refl

  pub new-google :
      (quoted : String → String) (i : IdpConfig) (w : W.World)
      → (i.kind == "google") ≡ true
      → new W quoted i w ≡ as_google W (Google.new W i w)
  unfolding new
  new-google quoted i w e = rw (e, if◌then◌else◌) refl
