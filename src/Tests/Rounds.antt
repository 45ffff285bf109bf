-- ===== src/Tests/Rounds.antt =====
-- The three reconciles of a bind that has just been written.
use kube_argus.Base.{
  ℕ, ◌≡◌, ◌≢◌, ◌<◌, ◌≤◌, ◌⊎◌, refl, true, none, some, Option, ok, arith, some_of, keep_if, decimal,
  pos,
}
use kube_argus.Base.Dict.{lookup}
use kube_argus.Operator.Types.{Bind, BindPhase-discrete, pending, binded, failed}
use kube_argus.Operator.Api.{World}
use kube_argus.Operator.Sync.{
  has_group, group_matches, binding_name, make_binding, pass, named, is_desired, create_all, prune,
  list_owned, sync_kind, delete_all, delete_kind,
}
use kube_argus.Operator.Steps.{
  Requeue, second, done, has_finalizer, without_finalizer, update_phase, delete_owned,
  reconcile_delete, ensure_service_account, sync_cluster_roles, sync_roles, sync_bindings,
}
use kube_argus.Operator.Reconcile.{
  anchor, expiry_of, is_established, bound_message, converge, fail, sync_and_converge, establish,
  expire, reconcile_live, reconcile_read, reconcile,
}
use kube_argus.Operator.Reconcile.Rounds.{Round, Rounds, start, round, phase, Rounds-end}
use kube_argus.Tests.Etcd.{find, drop_key, owned_by, collect, list, create, delete}
use kube_argus.Tests.Cluster.{crb_laws, rb_laws, one_hour, get}
use kube_argus.Tests.Progress.{api, merge_laws, bind_laws, fresh, world, unset≢binded, unset≢failed}

abbrev next : World api → World api
next w = (reconcile api 5 6 "kargus" "ann" w).1

abbrev held : Option Bind → Bind
held none = fresh
held (some b) = b

abbrev at :
    (w : World api) (q : Requeue)
    → (get "kargus" "ann" w.binds).0 ≡ ok (held w.binds)
    → (held w.binds).namespace ≡ "kargus"
    → (held w.binds).name ≡ "ann"
    → (held w.binds).deletion ≡ none
    → 5 < expiry_of api (held w.binds) one_hour
    → (held w.binds).status.sv.status ≢ binded
    → (held w.binds).status.sv.status ≢ failed
    → (reconcile api 5 6 "kargus" "ann" w).0 ≡ ok q
    → Round api (crb_laws true) (rb_laws true) merge_laws bind_laws "kargus" "ann" w
at w q g s n d l nb nf h = record {
  now = 5;
  later = 6;
  bind = held w.binds;
  ttl = one_hour;
  requeue = q;
  found = g;
  in_namespace = s;
  called = n;
  kept = d;
  lives = refl;
  early = l;
  not_binded = nb;
  not_failed = nf;
  passed = h;
}

pending≢binded : pending ≢ binded
pending≢binded = ground arith

pending≢failed : pending ≢ failed
pending≢failed = ground arith

three_rounds :
    Rounds api
      (crb_laws true)
      (rb_laws true)
      merge_laws
      bind_laws
      "kargus"
      "ann"
      world
      3
      (next (next (next world)))
unfolding has_group group_matches lookup some_of keep_if binding_name make_binding pass named
    is_desired create_all prune list_owned sync_kind delete_all delete_kind find drop_key owned_by
    collect list create delete has_finalizer without_finalizer update_phase delete_owned
    reconcile_delete ensure_service_account sync_cluster_roles sync_roles sync_bindings anchor
    expiry_of is_established bound_message decimal converge fail sync_and_converge establish expire
    reconcile_live reconcile_read reconcile BindPhase-discrete
three_rounds =
    let one = at world done refl refl refl refl (omega arith) unset≢binded unset≢failed refl in
    let two =
      at (next world) (record { after = pos second }) refl refl refl refl (omega arith) unset≢binded
        unset≢failed refl in
    let three =
      at (next (next world)) (record { after = pos 3_599_999_999_994 }) refl refl refl refl
        (omega arith) pending≢binded pending≢failed refl in
    round (round (round (start refl) one refl refl) two refl refl) three refl refl

abbrev three : ℕ
three = 3

Rounds-end_example :
    (three ≤ 3)
    × (three ≡ 3
        → (phase api
              (crb_laws true)
              (rb_laws true)
              merge_laws
              bind_laws
              "kargus"
              "ann"
              (next (next (next world)))
            ≡ binded)
          ⊎ (phase api
                (crb_laws true)
                (rb_laws true)
                merge_laws
                bind_laws
                "kargus"
                "ann"
                (next (next (next world)))
              ≡ failed))
Rounds-end_example =
    Rounds-end api (crb_laws true) (rb_laws true) merge_laws bind_laws "kargus" "ann" world
      (next (next (next world))) three three_rounds
