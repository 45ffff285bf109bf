-- ===== src/K8s/Binder/Renewal.antt =====
-- What a login leaves for the operator: `Upsert` of service/internal/k8s/bind.go against the expiry that
-- operator/internal/controller/userauthenticationbind_controller.go computes.
use kube_argus.Base.{ℕ, ◌+◌, ◌*◌, ◌/◌, ◌≡◌, String, ◌==◌, Option, none, some, Result, ok, false}
use kube_argus.Model.{Identity}
use kube_argus.Operator.Types.{Bind}
use kube_argus.Operator.Api.{Api}
use kube_argus.Operator.Steps.{second}
use kube_argus.Operator.Reconcile.{expiry_of}
use kube_argus.K8s.SanitizeName.{sanitize_name}
use kube_argus.K8s.Binder.{Cluster, Binder, blank, renew, to_cr_memberships}

-- The stored object, or the new one.
abbrev pub or_new : Bind → Option Bind → Bind
or_new b none = b
or_new b (some cr) = cr

-- What the API server adds to an object when it creates it.
abbrev pub with_identity : String → ℕ → Bind → Bind
with_identity uid creation cr = record cr { uid = uid; creation = creation }

-- After `CreateOrUpdate` without an error the object is stored as the function made it: of the stored
-- one, if there was one, or else of the one given, with a uid and a time of creation.
pub record IsCluster (C : Cluster) : Type 1 where
  pub view : C.State → String → String → Option Bind
  pub stored :
      (b cr old : Bind) (f : Bind → Bind) (s : C.State)
      → view s b.namespace b.name ≡ some old
      → (C.create_or_update b f s).0 ≡ ok cr
      → view (C.create_or_update b f s).1 b.namespace b.name ≡ some (f old)
  pub created :
      (b cr : Bind) (f : Bind → Bind) (s : C.State)
      → view s b.namespace b.name ≡ none
      → (C.create_or_update b f s).0 ≡ ok cr
      → (uid : String) × (creation : ℕ) × (view (C.create_or_update b f s).1 b.namespace b.name
          ≡ some (with_identity uid creation (f b)))

-- The operator reads back this time as the binder prints it.
pub record ReadsTime (A : Api) (C : Cluster) (t : ℕ) : Type 0 where
  pub printed : (C.format_time t == "") ≡ false
  pub parsed : A.parse_rfc3339 (C.format_time t) ≡ some t

module _ (A : Api) (C : Cluster) (L : IsCluster C) where
  -- The custom resource after a login at the time `now`.
  pub record Renewed (b : Binder) (id : Identity) (name : String) (now : ℕ) (before : Option Bind)
      (cr : Bind) : Type 0 where
    pub named : name ≡ sanitize_name id.email
    pub user : cr.spec.user ≡ name
    pub ttl : cr.spec.ttl ≡ b.ttl
    pub memberships : cr.spec.memberships ≡ to_cr_memberships id.groups
    pub status : cr.status ≡ (or_new (blank b.namespace name) before).status
    pub uid : (old : Bind) → before ≡ some old → cr.uid ≡ old.uid
    pub expiry : (d : ℕ) → expiry_of A cr d ≡ (now + d) / second * second

  -- The object that the login finds.
  abbrev pub before : Binder → Identity → C.State → Option Bind
  before b id s = L.view s b.namespace (sanitize_name id.email)

  abbrev written : Binder → Identity → C.State → Result String Bind × C.State
  written b id s =
      C.create_or_update (blank b.namespace (sanitize_name id.email))
        (renew b id (C.format_time (C.clock s))) s
