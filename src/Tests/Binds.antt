-- ===== src/Tests/Binds.antt =====
-- The controller's theorems at a bind of one hour, with a role, a stale binding and a foreign one.
use kube_argus.Base.{
  ◌≡◌, refl, String, Bool, true, false, none, some, List, [], ◌∷◌, some_of, keep_if,
}
use kube_argus.Base.Dict.{lookup}
use kube_argus.Operator.Types.{
  Bind, BindPhase, binded, ServiceAccount, Role, Binding, Membership, finalizer, owner_label,
  group_annotation,
}
use kube_argus.Operator.Api.{World}
use kube_argus.Operator.Sync.{
  cluster_kind, has_group, group_matches, binding_name, make_binding, pass, named, is_desired,
  create_all, prune, list_owned, sync_kind, delete_all, delete_kind,
}
use kube_argus.Operator.Sync.Synced.{Synced, sync_kind-Synced, delete_kind-Released}
use kube_argus.Operator.Sync.Released.{Released}
use kube_argus.Operator.Steps.{is_unset, subject_of, has_finalizer}
use kube_argus.Operator.Reconcile.Reads.{IsLive}
use kube_argus.Tests.Etcd.{etcd, find, drop_key, owned_by, collect, list, create, delete}
use kube_argus.Tests.Cluster.{server, crb_laws, rb_laws, one_hour}

-- The custom resource in a phase.
abbrev pub alice : BindPhase → Bind
alice phase = record {
  name = "alice";
  namespace = "kargus";
  uid = "u1";
  creation = 0;
  deletion = none;
  finalizers = finalizer ∷ [];
  annotations = [];
  spec = record {
    ttl = "1h";
    domain = "example.com";
    user = "alice";
    memberships = record { gid = "eng"; name = "Engineering"; domain = "example.com" } ∷ [];
  };
  status = record {
    conditions = [];
    sv = record { ref = "sa-1"; status = phase; expires_at = some one_hour };
  };
}

abbrev dev : Role
dev = record { name = "dev"; namespace = ""; annotations = (group_annotation, "eng") ∷ [] }

abbrev ops : Role
ops = record { name = "ops"; namespace = "prod"; annotations = (group_annotation, "ops") ∷ [] }

abbrev labelled : String → String → String → Binding
labelled uid name namespace = record {
  name = name;
  namespace = namespace;
  labels = (owner_label, uid) ∷ [];
  role_ref = record { api_group = "rbac.authorization.k8s.io"; kind = "ClusterRole"; name = "old" };
  subjects = [];
}

abbrev pub bindings : List Binding
bindings = labelled "u1" "kargus-u1-old" "" ∷ labelled "u2" "kargus-u2-dev" "" ∷ []

abbrev pub cluster : (up : Bool) → Bind → World (server up)
cluster up b = record {
  binds = some b;
  accounts = tt;
  cluster_roles = dev ∷ [];
  roles = ops ∷ [];
  crbs = bindings;
  rbs = labelled "u1" "kargus-u1-ops" "prod" ∷ [];
}

pub alice-IsLive :
    (up : Bool) (phase : BindPhase)
    → is_unset phase ≡ false
    → IsLive (server up) (crb_laws up) (rb_laws up) (alice phase)
unfolding has_finalizer some_of
alice-IsLive up phase seen = record { kept = refl; guarded = refl; seen = seen }

abbrev pub account : ServiceAccount
account = record { name = "alice"; namespace = "kargus"; uid = "sa-1"; controller = some "u1" }

abbrev memberships : List Membership
memberships = (alice binded).spec.memberships

-- The stale binding is pruned and the role's is created.
abbrev synced : List Binding
synced =
    record {
      name = "kargus-u1-dev";
      namespace = "";
      labels = (owner_label, "u1") ∷ [];
      role_ref = record {
        api_group = "rbac.authorization.k8s.io";
        kind = "ClusterRole";
        name = "dev";
      };
      subjects = subject_of account ∷ [];
    }
    ∷ labelled "u2" "kargus-u2-dev" ""
    ∷ []

sync_kind-Synced_example :
    Synced
      (etcd cluster_kind.key true)
      cluster_kind
      (crb_laws true)
      "u1"
      memberships
      (subject_of account)
      (dev ∷ [])
      bindings
      synced
unfolding has_group group_matches lookup some_of keep_if binding_name make_binding pass named
    is_desired create_all prune list_owned sync_kind delete_all delete_kind find drop_key owned_by
    collect list create delete
sync_kind-Synced_example =
    sync_kind-Synced (etcd cluster_kind.key true) cluster_kind (crb_laws true) "u1" memberships
      (subject_of account) (dev ∷ []) bindings refl

delete_kind-Released_example :
    Released
      (etcd cluster_kind.key true)
      cluster_kind
      (crb_laws true)
      "u1"
      bindings
      (labelled "u2" "kargus-u2-dev" "" ∷ [])
unfolding has_group group_matches lookup some_of keep_if binding_name make_binding pass named
    is_desired create_all prune list_owned sync_kind delete_all delete_kind find drop_key owned_by
    collect list create delete
delete_kind-Released_example =
    delete_kind-Released (etcd cluster_kind.key true) cluster_kind (crb_laws true) "u1" bindings
      refl
