-- ===== src/Tests/Cluster.antt =====
-- An API server with one custom resource, whose status a merge patch changes field by field.
use mathlib.Core.Logic.{ite}
use kube_argus.Base.{
  ℕ, ◌≡◌, refl, String, Bool, Option, none, some, List, [], ◌∷◌, Result, ok, err, Exec, arith,
}
use kube_argus.Operator.Types.{Bind, BindPhase, BindPhase-discrete, unset, ServiceAccount, Role}
use kube_argus.Operator.Api.{Api, ApiError, not_found, IsBindings}
use kube_argus.Operator.Sync.{cluster_kind, namespaced_kind}
use kube_argus.Operator.Reconcile.Settle.{IsMergePatch}
use kube_argus.Tests.Etcd.{etcd}
use kube_argus.Tests.Etcd.Laws.{etcd-IsBindings}

abbrev pub get : String → String → Exec (Option Bind) ApiError Bind
get namespace name none = (err not_found, none)
get namespace name (some b) = (ok b, some b)

abbrev pub update : Bind → Exec (Option Bind) ApiError Bind
update b s = (ok b, some b)

-- The stored object with the status that the patch carries.
abbrev pub merged : Bind → Bind → Bind → Bind
merged orig new b = record new {
  status = record new.status {
    sv = record new.status.sv {
      status =
          ite (BindPhase-discrete orig.status.sv.status new.status.sv.status) b.status.sv.status
            new.status.sv.status;
    };
  };
}

abbrev pub patch_status : Bind → Bind → Exec (Option Bind) ApiError Bind
patch_status orig new none = (err not_found, none)
patch_status orig new (some b) = let m = merged orig new b in (ok m, some m)

abbrev pub create_or_update :
    ServiceAccount
    → (ServiceAccount → Result ApiError ServiceAccount)
    → Exec (Unit {0}) ApiError ServiceAccount
create_or_update sa f s = (f (record sa { uid = "sa-1" }), s)

-- An hour for every text.
abbrev pub one_hour : ℕ
one_hour = 3_600_000_000_000

abbrev pub server : Bool → Api
server up = record {
  Binds = Option Bind;
  get = get;
  update = update;
  patch_status = patch_status;
  Accounts = Unit;
  create_or_update = create_or_update;
  set_controller_reference = λ b sa. ok (record sa { controller = some b.uid });
  ClusterRoles = List Role;
  list_cluster_roles = λ s. (ok s, s);
  Roles = List Role;
  list_roles = λ s. (ok s, s);
  cluster_role_bindings = etcd cluster_kind.key up;
  role_bindings = etcd namespaced_kind.key up;
  set_status_condition = λ cs c. c ∷ [];
  parse_duration = λ s. ok one_hour;
  parse_rfc3339 = λ s. none;
  error_text = λ doing cause. doing;
}

abbrev pub crb_laws : (up : Bool) → IsBindings cluster_kind.key (etcd cluster_kind.key up)
crb_laws up = etcd-IsBindings cluster_kind.key up

abbrev pub rb_laws : (up : Bool) → IsBindings namespaced_kind.key (etcd namespaced_kind.key up)
rb_laws up = etcd-IsBindings namespaced_kind.key up

abbrev pub phase_of : Option Bind → String → String → BindPhase
phase_of none namespace name = unset
phase_of (some b) namespace name = b.status.sv.status

module _ (up : Bool) where
  patched :
      (orig new b : Bind) (s : Option Bind)
      → (patch_status orig new s).0 ≡ ok b
      → phase_of (patch_status orig new s).1 new.namespace new.name
        ≡ ite
            (BindPhase-discrete orig.status.sv.status new.status.sv.status)
            (phase_of s new.namespace new.name)
            new.status.sv.status
  patched orig new b none h = ground arith
  patched orig new b (some c) h = refl

  named_alike :
      (orig new b : Bind) (s : Option Bind)
      → (patch_status orig new s).0 ≡ ok b
      → (b.namespace ≡ new.namespace) × (b.name ≡ new.name)
  named_alike orig new b none h = ground arith
  named_alike orig new b (some c) h = ground arith

  pub merge_laws : IsMergePatch (server up) (crb_laws up) (rb_laws up)
  merge_laws = record { phase = phase_of; patched = patched; named_alike = named_alike }
