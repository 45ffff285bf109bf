-- ===== src/Operator/Manager.antt =====
-- `main` of operator/cmd/main.go: the options of the manager, from the flags. The flags of zap are not
-- among them.
use kube_argus.Base.{String, ◌==◌, ◌≡◌, refl, Bool, true, false, List, [], ◌∷◌, if◌then◌else◌}

pub record Flags : Type 0 where
  pub metrics_addr : String
  pub probe_addr : String
  pub enable_leader_election : Bool
  pub secure_metrics : Bool
  pub webhook_cert_path : String
  pub webhook_cert_name : String
  pub webhook_cert_key : String
  pub metrics_cert_path : String
  pub metrics_cert_name : String
  pub metrics_cert_key : String
  pub enable_http2 : Bool

-- The flags of a command line without any.
abbrev pub default_flags : Flags
default_flags = record {
  metrics_addr = "0";
  probe_addr = ":8081";
  enable_leader_election = false;
  secure_metrics = true;
  webhook_cert_path = "";
  webhook_cert_name = "tls.crt";
  webhook_cert_key = "tls.key";
  metrics_cert_path = "";
  metrics_cert_name = "tls.crt";
  metrics_cert_key = "tls.key";
  enable_http2 = false;
}

-- `tls.Config`, by the one field that the options set.
pub record TlsConfig : Type 0 where
  pub next_protos : List String

-- Where a server finds its certificate; an empty directory is none.
pub record Certificate : Type 0 where
  pub dir : String
  pub name : String
  pub key : String

abbrev pub no_certificate : Certificate
no_certificate = record { dir = ""; name = ""; key = "" }

pub record WebhookOptions : Type 0 where
  pub tls_opts : List (TlsConfig → TlsConfig)
  pub certificate : Certificate

-- `authenticated` is the filter `WithAuthenticationAndAuthorization`.
pub record MetricsOptions : Type 0 where
  pub bind_address : String
  pub secure_serving : Bool
  pub tls_opts : List (TlsConfig → TlsConfig)
  pub authenticated : Bool
  pub certificate : Certificate

pub record ManagerOptions : Type 0 where
  pub metrics : MetricsOptions
  pub webhook : WebhookOptions
  pub health_probe_bind_address : String
  pub leader_election : Bool
  pub leader_election_id : String

abbrev pub disable_http2 : TlsConfig → TlsConfig
disable_http2 c = record c { next_protos = "http/1.1" ∷ [] }

unfoldable pub tls_opts : Flags → List (TlsConfig → TlsConfig)
tls_opts f = if f.enable_http2 then [] else disable_http2 ∷ []

unfoldable pub webhook_options : Flags → WebhookOptions
webhook_options f = record {
  tls_opts = tls_opts f;
  certificate = if f.webhook_cert_path == "" then no_certificate else record {
    dir = f.webhook_cert_path;
    name = f.webhook_cert_name;
    key = f.webhook_cert_key;
  };
}

unfoldable pub metrics_options : Flags → MetricsOptions
metrics_options f = record {
  bind_address = f.metrics_addr;
  secure_serving = f.secure_metrics;
  tls_opts = tls_opts f;
  authenticated = f.secure_metrics;
  certificate = if f.metrics_cert_path == "" then no_certificate else record {
    dir = f.metrics_cert_path;
    name = f.metrics_cert_name;
    key = f.metrics_cert_key;
  };
}

unfoldable pub manager_options : Flags → ManagerOptions
manager_options f = record {
  metrics = metrics_options f;
  webhook = webhook_options f;
  health_probe_bind_address = f.probe_addr;
  leader_election = f.enable_leader_election;
  leader_election_id = "d647d578.kargus.io";
}

-- The configuration that a server ends up with: every option is applied, in order.
abbrev pub applied : List (TlsConfig → TlsConfig) → TlsConfig → TlsConfig
applied [] c = c
applied (o ∷ os) c = applied os (o c)

-- Unless HTTP/2 is asked for, neither server offers it, whatever its configuration was before.
http2_off :
    (f : Flags) (c : TlsConfig)
    → f.enable_http2 ≡ false
    → ((applied (manager_options f).metrics.tls_opts c).next_protos ≡ "http/1.1" ∷ [])
      × ((applied (manager_options f).webhook.tls_opts c).next_protos ≡ "http/1.1" ∷ [])
unfolding manager_options metrics_options webhook_options tls_opts
http2_off f c h = rw (h, if◌then◌else◌) (refl, refl)
