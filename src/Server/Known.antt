-- ===== src/Server/Known.antt =====
-- What a broker runs with, once `run` of service/cmd/server/main.go has started it.
use kube_argus.Base.{◌==◌, ◌≡◌, not, ◌&&◌, ok}
use kube_argus.Base.Dict.{Dict}
use kube_argus.Config.Load.{Settings}
use kube_argus.Config.Load.Sufficient.{Sufficient}
use kube_argus.Idp as Idp
use kube_argus.Broker.Signer.{Signer}
use kube_argus.Broker.Signer as Signing
use kube_argus.Server.Start.{Host, World, Running, handlers_part}
use kube_argus.Server.Fits.{BackendFits, ProviderFits}

module _ (H : Host) where
  -- The parts of a broker that runs.
  pub record Assembled (s : Settings) (r : Running H) : Type 0 where
    pub same : r.settings ≡ s
    pub backend : BackendFits H s.store r.backend
    pub provider : ProviderFits H s.idp r.provider
    pub tls : r.tls ≡ (not (s.tls_cert_file == "") && not (s.tls_key_file == ""))
    pub signer :
        (k : H.keys.World) × ((Signing.new H.keys (handlers_part s) s.id_token_signing_key k).0
          ≡ ok r.signer)
