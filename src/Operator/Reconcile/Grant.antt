-- ===== src/Operator/Reconcile/Grant.antt =====
-- How access begins: what a reconcile of a live, unexpired bind has done when it returns no error.
use kube_argus.Base.{◌≡◌, refl, inl, inr, String}
use kube_argus.Base.{List, Result, ok, err, arith, continue, Result-cases}
use kube_argus.Base.{Outcome-cases}
use kube_argus.Operator.Types.{Bind, Role, ServiceAccount}
use kube_argus.Operator.Api.{Api, ApiError, World, IsBindings}
use kube_argus.Operator.Sync.{Failure, named, sync_kind, cluster_kind, namespaced_kind}
use kube_argus.Operator.Sync.Synced.{Synced, sync_kind-Synced}
use kube_argus.Operator.Steps.{subject_of, sync_cluster_roles, sync_roles, sync_bindings}

pub named-ok :
    {X : Type 0} (doing : String) (r : Result ApiError X) {x : X} → named doing r ≡ ok x → r ≡ ok x
unfolding named
named-ok doing (ok x) h = ground arith
named-ok doing (err e) h = cc

module _ (A : Api) (C : IsBindings cluster_kind.key A.cluster_role_bindings)
    (R : IsBindings namespaced_kind.key A.role_bindings) where
  -- The bindings of both kinds agree with the roles that the two list calls gave.
  pub record Granted (b : Bind) (sa : ServiceAccount) (w t : World A) : Type 0 where
    pub cluster_roles : List Role
    pub cluster_roles_listed : (A.list_cluster_roles w.cluster_roles).0 ≡ ok cluster_roles
    pub crbs :
        Synced A.cluster_role_bindings cluster_kind C b.uid b.spec.memberships
          (subject_of sa)
          cluster_roles
          w.crbs
          t.crbs
    pub roles : List Role
    pub roles_listed : (A.list_roles w.roles).0 ≡ ok roles
    pub rbs :
        Synced A.role_bindings namespaced_kind R b.uid b.spec.memberships
          (subject_of sa)
          roles
          w.rbs
          t.rbs

  module _ (b : Bind) (sa : ServiceAccount) (w : World A) where
    abbrev crb_sync : List Role → Result Failure (Unit {0}) × A.cluster_role_bindings.State
    crb_sync roles =
        sync_kind A.cluster_role_bindings cluster_kind b.uid b.spec.memberships (subject_of sa)
          roles w.crbs

    abbrev rb_sync : List Role → Result Failure (Unit {0}) × A.role_bindings.State
    rb_sync roles =
        sync_kind A.role_bindings namespaced_kind b.uid b.spec.memberships (subject_of sa) roles
          w.rbs

    -- The state after the first half.
    abbrev half : List Role → World A
    half roles = record w {
      cluster_roles = (A.list_cluster_roles w.cluster_roles).1;
      crbs = (crb_sync roles).1;
    }

    abbrev whole : List Role → List Role → World A
    whole crs rs = record (half crs) { roles = (A.list_roles w.roles).1; rbs = (rb_sync rs).1 }

    sync_cluster_roles-go :
        (crs : List Role)
        → (A.list_cluster_roles w.cluster_roles).0 ≡ ok crs
        → sync_cluster_roles A b sa w ≡ ((crb_sync crs).0, half crs)
    unfolding sync_cluster_roles named
    sync_cluster_roles-go crs p = rw (p, named, continue) refl

    sync_cluster_roles-stop :
        (e : ApiError)
        → (A.list_cluster_roles w.cluster_roles).0 ≡ err e
        → (sync_cluster_roles A b sa w).0
          ≡ err (record { doing = "listing ClusterRoles"; cause = e })
    unfolding sync_cluster_roles named
    sync_cluster_roles-stop e p = rw (p, named, continue) refl

    sync_roles-go :
        (rs : List Role)
        → (A.list_roles w.roles).0 ≡ ok rs
        → sync_roles A b sa w
          ≡ ((rb_sync rs).0, record w { roles = (A.list_roles w.roles).1; rbs = (rb_sync rs).1 })
    unfolding sync_roles named
    sync_roles-go rs p = rw (p, named, continue) refl

    sync_roles-stop :
        (e : ApiError)
        → (A.list_roles w.roles).0 ≡ err e
        → (sync_roles A b sa w).0 ≡ err (record { doing = "listing Roles"; cause = e })
    unfolding sync_roles named
    sync_roles-stop e p = rw (p, named, continue) refl

  module _ (b : Bind) (sa : ServiceAccount) (w : World A) where
    sync_roles-whole :
        (crs rs : List Role)
        → (A.list_roles w.roles).0 ≡ ok rs
        → sync_roles A b sa (half b sa w crs) ≡ ((rb_sync b sa w rs).0, whole b sa w crs rs)
    sync_roles-whole crs rs p = sync_roles-go b sa (half b sa w crs) rs p

    -- The answer of the second half, from the state after the first.
    second_half :
        (crs : List Role)
        → (A.list_cluster_roles w.cluster_roles).0 ≡ ok crs
        → (crb_sync b sa w crs).0 ≡ ok tt
        → sync_bindings A b sa w ≡ sync_roles A b sa (half b sa w crs)
    unfolding sync_bindings
    second_half crs p q = rw (sync_cluster_roles-go b sa w crs p, q, continue) refl

    first_half_failed :
        (crs : List Role) (f : Failure)
        → (A.list_cluster_roles w.cluster_roles).0 ≡ ok crs
        → (crb_sync b sa w crs).0 ≡ err f
        → (sync_bindings A b sa w).0 ≡ err f
    unfolding sync_bindings
    first_half_failed crs f p q = rw (sync_cluster_roles-go b sa w crs p, q, continue) refl

    unlisted :
        (f : Failure) → (sync_cluster_roles A b sa w).0 ≡ err f → (sync_bindings A b sa w).0 ≡ err f
    unfolding sync_bindings
    unlisted f p = rw (p, continue) refl

    Granted-whole :
        (crs rs : List Role)
        → (A.list_cluster_roles w.cluster_roles).0 ≡ ok crs
        → (crb_sync b sa w crs).0 ≡ ok tt
        → (A.list_roles w.roles).0 ≡ ok rs
        → (rb_sync b sa w rs).0 ≡ ok tt
        → Granted b sa w (whole b sa w crs rs)
    Granted-whole crs rs p q u v = record {
      cluster_roles = crs;
      cluster_roles_listed = p;
      crbs =
          sync_kind-Synced A.cluster_role_bindings cluster_kind C b.uid b.spec.memberships
            (subject_of sa) crs w.crbs q;
      roles = rs;
      roles_listed = u;
      rbs =
          sync_kind-Synced A.role_bindings namespaced_kind R b.uid b.spec.memberships
            (subject_of sa) rs w.rbs v;
    }

    second_half-Granted :
        (crs : List Role)
        → (A.list_cluster_roles w.cluster_roles).0 ≡ ok crs
        → (crb_sync b sa w crs).0 ≡ ok tt
        → (sync_roles A b sa (half b sa w crs)).0 ≡ ok tt
        → Granted b sa w (sync_roles A b sa (half b sa w crs)).1
    second_half-Granted crs p q h = elim (Outcome-cases (A.list_roles w.roles).0) [
      | inr (e, u) ↦ cc (h, sync_roles-stop b sa (half b sa w crs) e u)
      | inl (rs, u) ↦
          rw (sync_roles-whole crs rs u)
            (Granted-whole crs rs p q u (rw (sync_roles-whole crs rs u) at h))
    ]

    -- When `syncBindings` returns no error, the bindings of both kinds agree with the roles.
    pub sync_bindings-Granted :
        (sync_bindings A b sa w).0 ≡ ok tt → Granted b sa w (sync_bindings A b sa w).1
    sync_bindings-Granted h = elim (Outcome-cases (A.list_cluster_roles w.cluster_roles).0) [
      | inr (e, p) ↦ cc (h, unlisted _ (sync_cluster_roles-stop b sa w e p))
      | inl (crs, p) ↦ elim (Result-cases (crb_sync b sa w crs).0) [
        | inr (f, q) ↦ cc (h, first_half_failed crs f p q)
        | inl q ↦
            rw (second_half crs p q) (second_half-Granted crs p q (rw (second_half crs p q) at h))
      ]
    ]
