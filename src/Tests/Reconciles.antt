-- ===== src/Tests/Reconciles.antt =====
-- Whole reconciles of a bind: expired, deleted, bound, settled, and failed twice.
use kube_argus.Base.{ℕ, ◌≡◌, refl, true, false, some, ok, arith, some_of, keep_if, decimal, pos}
use kube_argus.Base.Dict.{lookup}
use kube_argus.Operator.Types.{is_unknown, is_false, Bind, binding, binded, failed}
use kube_argus.Operator.Api.{other}
use kube_argus.Operator.Sync.{
  Failure, has_group, group_matches, binding_name, make_binding, pass, named, is_desired,
  create_all, prune, list_owned, sync_kind, delete_all, delete_kind,
}
use kube_argus.Operator.Steps.{
  done, with_phase, has_finalizer, without_finalizer, update_phase, delete_owned, reconcile_delete,
  ensure_service_account, sync_cluster_roles, sync_roles, sync_bindings,
}
use kube_argus.Operator.Reconcile.{
  anchor, expiry_of, is_established, bound_message, converge, fail, sync_and_converge, establish,
  expire, reconcile_live, reconcile_read, reconcile, with_ref,
}
use kube_argus.Operator.Reconcile.Revoke.{Expired, LetGo, reconcile-Expired, reconcile_deleted}
use kube_argus.Operator.Reconcile.Reads.{after_get}
use kube_argus.Operator.Reconcile.Ends.{Ends, reconcile_bound}
use kube_argus.Operator.Reconcile.Settle.{IsSettled, reconcile_settled}
use kube_argus.Operator.Reconcile.Stale.{reconcile_failed_again}
use kube_argus.Tests.Etcd.{find, drop_key, owned_by, collect, list, create, delete}
use kube_argus.Tests.Cluster.{merged, server, crb_laws, rb_laws, merge_laws, one_hour}
-- The custom resource in a phase.
use kube_argus.Tests.Binds.{alice, cluster, alice-IsLive, account}

-- Two hours after the start, and half an hour after it.
abbrev late : ℕ
late = 7_200_000_000_000

abbrev early : ℕ
early = 1_800_000_000_000

reconcile-Expired_example :
    Expired
      (server true)
      (crb_laws true)
      (rb_laws true)
      (alice binded)
      (after_get
        (server true)
        (crb_laws true)
        (rb_laws true)
        "kargus"
        "alice"
        (cluster true (alice binded)))
      (reconcile (server true) late late "kargus" "alice" (cluster true (alice binded))).1
unfolding has_group group_matches lookup some_of keep_if binding_name make_binding pass named
    is_desired create_all prune list_owned sync_kind delete_all delete_kind find drop_key owned_by
    collect list create delete has_finalizer without_finalizer update_phase delete_owned
    reconcile_delete ensure_service_account sync_cluster_roles sync_roles sync_bindings anchor
    expiry_of is_established bound_message decimal converge fail sync_and_converge establish expire
    reconcile_live reconcile_read reconcile
reconcile-Expired_example =
    reconcile-Expired (server true) (crb_laws true) (rb_laws true) late late "kargus" "alice"
      (cluster true (alice binded)) (alice binded) one_hour {q = done} refl
      (alice-IsLive true binded refl) refl (omega arith) refl refl

abbrev leaving : Bind
leaving = record (alice binded) { deletion = some early }

reconcile_deleted_example :
    LetGo
      (server true)
      (crb_laws true)
      (rb_laws true)
      leaving
      (ok done)
      (after_get
        (server true)
        (crb_laws true)
        (rb_laws true)
        "kargus"
        "alice"
        (cluster true leaving))
      (reconcile (server true) early early "kargus" "alice" (cluster true leaving)).1
unfolding has_group group_matches lookup some_of keep_if binding_name make_binding pass named
    is_desired create_all prune list_owned sync_kind delete_all delete_kind find drop_key owned_by
    collect list create delete has_finalizer without_finalizer update_phase delete_owned
    reconcile_delete ensure_service_account sync_cluster_roles sync_roles sync_bindings anchor
    expiry_of is_established bound_message decimal converge fail sync_and_converge establish expire
    reconcile_live reconcile_read reconcile
reconcile_deleted_example =
    reconcile_deleted (server true) (crb_laws true) (rb_laws true) early early "kargus" "alice"
      (cluster true leaving) leaving {d = early} refl refl refl

reconcile_bound_example :
    Ends
      (server true)
      (crb_laws true)
      (rb_laws true)
      (alice failed)
      one_hour
      early
      (after_get
        (server true)
        (crb_laws true)
        (rb_laws true)
        "kargus"
        "alice"
        (cluster true (alice failed)))
      (record { after = pos 1_800_000_000_000 })
      (reconcile (server true) early early "kargus" "alice" (cluster true (alice failed))).1
unfolding has_group group_matches lookup some_of keep_if binding_name make_binding pass named
    is_desired create_all prune list_owned sync_kind delete_all delete_kind find drop_key owned_by
    collect list create delete has_finalizer without_finalizer update_phase delete_owned
    reconcile_delete ensure_service_account sync_cluster_roles sync_roles sync_bindings anchor
    expiry_of is_established bound_message decimal converge fail sync_and_converge establish expire
    reconcile_live reconcile_read reconcile
reconcile_bound_example =
    reconcile_bound (server true) (crb_laws true) (rb_laws true) early early "kargus" "alice"
      (cluster true (alice failed)) (alice failed) one_hour
      (record { after = pos 1_800_000_000_000 }) refl (alice-IsLive true failed refl) refl
      (omega arith) refl

alice-IsSettled :
    IsSettled (server true) (crb_laws true) (rb_laws true) (alice binded) account one_hour
alice-IsSettled = record { phase = refl; ref = refl; expires = refl }

reconcile_settled_example :
    ((reconcile (server true) early early "kargus" "alice" (cluster true (alice binded))).0
      ≡ ok (record { after = pos 1_800_000_000_000 }))
    × ((reconcile (server true) early early "kargus" "alice" (cluster true (alice binded))).1.binds
        ≡ some (alice binded))
unfolding has_group group_matches lookup some_of keep_if binding_name make_binding pass named
    is_desired create_all prune list_owned sync_kind delete_all delete_kind find drop_key owned_by
    collect list create delete has_finalizer without_finalizer update_phase delete_owned
    reconcile_delete ensure_service_account sync_cluster_roles sync_roles sync_bindings anchor
    expiry_of is_established bound_message decimal converge fail sync_and_converge establish expire
    reconcile_live reconcile_read reconcile
reconcile_settled_example =
    reconcile_settled (server true) (crb_laws true) (rb_laws true) early early "kargus" "alice"
      (cluster true (alice binded)) (alice binded) account one_hour refl
      (alice-IsLive true binded refl) refl (omega arith) alice-IsSettled refl refl

-- The listing of bindings times out again.
abbrev timeout : Failure
timeout = record { doing = "listing owned ClusterRoleBindings"; cause = other "timeout" }

-- The object that comes back from each of the two writes.
abbrev rebinding : Bind
rebinding =
    merged (alice failed)
      (with_phase (server false) (with_ref (server false) (alice failed) "sa-1") binding is_unknown
        "Syncing" "Syncing RBAC bindings")
      (alice failed)

abbrev failing : Bind
failing =
    merged (alice failed)
      (with_phase (server false) rebinding failed is_false "BindFailed"
        "listing owned ClusterRoleBindings")
      rebinding

reconcile_failed_again_example :
    ((reconcile (server false) early early "kargus" "alice" (cluster false (alice failed))).0
      ≡ ok done)
    × ((merge_laws false).phase
          (reconcile
            (server false)
            early
            early
            "kargus"
            "alice"
            (cluster false (alice failed))).1.binds
          "kargus"
          "alice"
        ≡ binding)
unfolding has_group group_matches lookup some_of keep_if binding_name make_binding pass named
    is_desired create_all prune list_owned sync_kind delete_all delete_kind find drop_key owned_by
    collect list create delete has_finalizer without_finalizer update_phase delete_owned
    reconcile_delete ensure_service_account sync_cluster_roles sync_roles sync_bindings anchor
    expiry_of is_established bound_message decimal converge fail sync_and_converge establish expire
    reconcile_live reconcile_read reconcile
reconcile_failed_again_example =
    reconcile_failed_again (server false) (crb_laws false) (rb_laws false) (merge_laws false) early
      early "kargus" "alice" (cluster false (alice failed)) (alice failed) rebinding failing account
      one_hour timeout refl (alice-IsLive false failed refl) refl (omega arith) refl refl refl refl
      refl
