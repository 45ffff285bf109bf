-- ===== src/Operator/Steps.antt =====
-- The methods that `Reconcile` calls, of
-- operator/internal/controller/userauthenticationbind_controller.go.
use kube_argus.Base.{ℕ, String, Bool, true, false, ◌==◌}
use kube_argus.Base.{none, List, [], ◌∷◌, ◌++◌, ok, Exec, continue}
use kube_argus.Base.{if◌then◌else◌, some_of, ℤ, pos}
use kube_argus.Operator.Types.{
  Bind, BindPhase, binded, unbound, unset, ConditionStatus, ServiceAccount, Subject, finalizer,
  condition_ready,
}
use kube_argus.Operator.Api.{ApiError, Api, World}
use kube_argus.Operator.Sync.{Failure, named, sync_kind, delete_kind, cluster_kind, namespaced_kind}

-- `ctrl.Result`, by its one field that the code sets: nanoseconds until the next reconcile. Zero is
-- `ctrl.Result{}`.
pub record Requeue : Type 0 where
  pub after : ℤ

abbrev pub done : Requeue
done = record { after = pos 0 }

abbrev pub second : ℕ
second = 1_000_000_000

abbrev pub is_unset : BindPhase → Bool
is_unset unset = true
is_unset _ = false

abbrev pub is_binded : BindPhase → Bool
is_binded binded = true
is_binded _ = false

abbrev pub is_unbound : BindPhase → Bool
is_unbound unbound = true
is_unbound _ = false

-- `controllerutil.ContainsFinalizer`, `AddFinalizer` and `RemoveFinalizer`, for the one finalizer.
unfoldable pub has_finalizer : Bind → Bool
unfolding some_of
has_finalizer b = some_of (λ f. f == finalizer) b.finalizers

abbrev pub add_finalizer : Bind → Bind
add_finalizer b = record b { finalizers = b.finalizers ++ finalizer ∷ [] }

unfoldable pub without_finalizer : List String → List String
without_finalizer [] = []
without_finalizer (f ∷ fs) =
    let rest = without_finalizer fs in if f == finalizer then rest else f ∷ rest

abbrev pub subject_of : ServiceAccount → Subject
subject_of sa = record { kind = "ServiceAccount"; name = sa.name; namespace = sa.namespace }

module _ (A : Api) where
  -- Calls of one part of the API server.
  module _ {E X : Type 0} where
    abbrev pub on_binds : Exec A.Binds E X → Exec (World A) E X
    on_binds m w = let (r, s) = m w.binds in (r, record w { binds = s })

    abbrev pub on_accounts : Exec A.Accounts E X → Exec (World A) E X
    on_accounts m w = let (r, s) = m w.accounts in (r, record w { accounts = s })

    abbrev pub on_cluster_roles : Exec A.ClusterRoles E X → Exec (World A) E X
    on_cluster_roles m w = let (r, s) = m w.cluster_roles in (r, record w { cluster_roles = s })

    abbrev pub on_roles : Exec A.Roles E X → Exec (World A) E X
    on_roles m w = let (r, s) = m w.roles in (r, record w { roles = s })

    abbrev pub on_crbs : Exec A.cluster_role_bindings.State E X → Exec (World A) E X
    on_crbs m w = let (r, s) = m w.crbs in (r, record w { crbs = s })

    abbrev pub on_rbs : Exec A.role_bindings.State E X → Exec (World A) E X
    on_rbs m w = let (r, s) = m w.rbs in (r, record w { rbs = s })

  -- `if err != nil { return fmt.Errorf(doing + ": %w", err) }` after a call.
  abbrev pub call : {S X : Type 0} → String → Exec S ApiError X → Exec S Failure X
  call doing m s = let (r, s') = m s in (named doing r, s')

  -- `updatePhase`: the phase and the condition, and a merge patch against the object as read.
  abbrev pub with_phase : Bind → BindPhase → ConditionStatus → String → String → Bind
  with_phase b phase status reason message = record b {
    status = record (b.status) {
      conditions =
          A.set_status_condition b.status.conditions (record {
            kind = condition_ready;
            status = status;
            reason = reason;
            message = message;
          });
      sv = record (b.status.sv) { status = phase };
    };
  }

  unfoldable pub update_phase :
      Bind → Bind → BindPhase → ConditionStatus → String → String → Exec (World A) Failure Bind
  unfolding named
  update_phase orig b phase status reason message =
      on_binds
        (call "updating status" (A.patch_status orig (with_phase b phase status reason message)))

  -- `return ctrl.Result{...}, err` where the error is that of the last call.
  abbrev pub returning :
      {X : Type 0} → Requeue → Exec (World A) Failure X → Exec (World A) Failure Requeue
  returning q m w = let (r, w') = m w in continue r (λ _ v. (ok q, v)) w'

  unfoldable pub delete_owned : String → Exec (World A) Failure (Unit {0})
  delete_owned cruid w =
      let (r, w') = on_crbs (delete_kind A.cluster_role_bindings cluster_kind cruid) w in
      continue r (λ _. on_rbs (delete_kind A.role_bindings namespaced_kind cruid)) w'

  unfoldable pub reconcile_delete : Bind → Exec (World A) Failure Requeue
  reconcile_delete b w = elim (has_finalizer b) [
    | false ↦ (ok done, w)
    | true ↦
        let (r, w') = delete_owned b.uid w in
        continue r
          (λ _. returning done (
            on_binds (
              call "removing finalizer"
                (A.update (record b { finalizers = without_finalizer b.finalizers })))))
          w'
  ]

  unfoldable pub ensure_service_account : Bind → Exec (World A) Failure ServiceAccount
  unfolding named
  ensure_service_account b = on_accounts (
      call "" (
        A.create_or_update
          (record { name = b.spec.user; namespace = b.namespace; uid = ""; controller = none })
          (A.set_controller_reference b)))

  -- `syncBindings`: the half for ClusterRoles, and then the half for Roles.
  unfoldable pub sync_cluster_roles : Bind → ServiceAccount → Exec (World A) Failure (Unit {0})
  sync_cluster_roles b sa w =
      let (r, w') = on_cluster_roles (call "listing ClusterRoles" A.list_cluster_roles) w in
      continue r
        (λ roles. on_crbs (
          sync_kind A.cluster_role_bindings cluster_kind b.uid b.spec.memberships (subject_of sa)
            roles))
        w'

  unfoldable pub sync_roles : Bind → ServiceAccount → Exec (World A) Failure (Unit {0})
  sync_roles b sa w =
      let (r, w') = on_roles (call "listing Roles" A.list_roles) w in
      continue r
        (λ roles. on_rbs (
          sync_kind A.role_bindings namespaced_kind b.uid b.spec.memberships (subject_of sa) roles))
        w'

  unfoldable pub sync_bindings : Bind → ServiceAccount → Exec (World A) Failure (Unit {0})
  sync_bindings b sa w =
      let (r, w') = sync_cluster_roles b sa w in continue r (λ _. sync_roles b sa) w'
