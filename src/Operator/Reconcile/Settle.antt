-- ===== src/Operator/Reconcile/Settle.antt =====
-- When a reconcile writes nothing, and what the last of two writes in one reconcile can lose.
use kube_argus.Base.{ℕ, ◌<◌, ◌≡◌, refl, ◌∙◌, String, true, some}
use kube_argus.Base.{ok, arith, sub_ℕ, eq_iff}
use kube_argus.Operator.Types.{Bind, BindPhase, BindPhase-discrete, ServiceAccount, binded}
use kube_argus.Operator.Api.{Api, World, IsBindings}
use kube_argus.Operator.Sync.{cluster_kind, namespaced_kind}
use kube_argus.Operator.Steps.{
  sync_bindings, sync_cluster_roles, sync_roles, ensure_service_account,
}
use kube_argus.Operator.Reconcile.{expiry_of, is_established, reconcile}
use kube_argus.Operator.Reconcile.Reads.{continue-binds, after_get, IsLive, reconcile-live}
use kube_argus.Operator.Reconcile.Bound.{converge-settled, sync_and_converge-go}
use kube_argus.Operator.Reconcile.Ends.{reconcile_live-establish, establish-binded}
use mathlib.Core.Logic.{ite}

module _ (A : Api) (C : IsBindings cluster_kind.key A.cluster_role_bindings)
    (R : IsBindings namespaced_kind.key A.role_bindings) where
  -- The status says already what a reconcile would write.
  pub record IsSettled (b : Bind) (sa : ServiceAccount) (expiry : ℕ) : Type 0 where
    pub phase : b.status.sv.status ≡ binded
    pub ref : b.status.sv.ref ≡ sa.uid
    pub expires : b.status.sv.expires_at ≡ some expiry

  established_of_IsSettled :
      (b : Bind) (sa : ServiceAccount) (expiry : ℕ)
      → IsSettled b sa expiry
      → is_established A b.status.sv.status b sa.uid expiry ≡ true
  unfolding is_established
  established_of_IsSettled b sa expiry s =
      ground (arith, s.phase, s.ref, s.expires, eq_iff b.status.sv.ref sa.uid)

  ensure_service_account-binds :
      (b : Bind) (w : World A) → (ensure_service_account A b w).1.binds ≡ w.binds
  unfolding ensure_service_account
  ensure_service_account-binds b w = refl

  sync_cluster_roles-binds :
      (b : Bind) (sa : ServiceAccount) (w : World A)
      → (sync_cluster_roles A b sa w).1.binds ≡ w.binds
  unfolding sync_cluster_roles
  sync_cluster_roles-binds b sa w = continue-binds A C R _ _ _ (λ x v. refl)

  sync_roles-binds :
      (b : Bind) (sa : ServiceAccount) (w : World A) → (sync_roles A b sa w).1.binds ≡ w.binds
  unfolding sync_roles
  sync_roles-binds b sa w = continue-binds A C R _ _ _ (λ x v. refl)

  -- `syncBindings` sends nothing about the custom resource.
  pub sync_bindings-binds :
      (b : Bind) (sa : ServiceAccount) (w : World A) → (sync_bindings A b sa w).1.binds ≡ w.binds
  unfolding sync_bindings
  sync_bindings-binds b sa w =
      continue-binds A C R _ _ _ (λ x v. sync_roles-binds b sa v) ∙ sync_cluster_roles-binds b sa w

  -- A reconcile of a live, unexpired bind whose status says already that it is bound, with the
  -- reference of its ServiceAccount and this expiry, writes nothing to it once the ServiceAccount and
  -- the bindings are seen to: it answers with a requeue at the expiry.
  pub reconcile_settled :
      (now later : ℕ) (namespace name : String) (w : World A) (b : Bind) (sa : ServiceAccount)
      (ttl : ℕ)
      → (A.get namespace name w.binds).0 ≡ ok b
      → IsLive A C R b
      → A.parse_duration b.spec.ttl ≡ ok ttl
      → now < expiry_of A b ttl
      → IsSettled b sa (expiry_of A b ttl)
      → (ensure_service_account A b (after_get A C R namespace name w)).0 ≡ ok sa
      → (sync_bindings A b sa (ensure_service_account A b (after_get A C R namespace name w)).1).0
        ≡ ok tt
      → ((reconcile A now later namespace name w).0
          ≡ ok (record { after = sub_ℕ (expiry_of A b ttl) later }))
        × ((reconcile A now later namespace name w).1.binds ≡ (A.get namespace name w.binds).1)
  reconcile_settled now later namespace name w b sa ttl g l p h s a y =
      let v = after_get A C R namespace name w in
      let u = (ensure_service_account A b v).1 in
      let expiry = expiry_of A b ttl in
      let prev = b.status.sv.status in
      let same =
        reconcile-live A C R now later namespace name w b g l
        ∙ reconcile_live-establish A C R now later v b ttl p h
        ∙ establish-binded A C R later b expiry v sa a (ground (arith, s.phase))
        ∙ sync_and_converge-go A C R later prev b b sa expiry u y
        ∙ converge-settled A C R later prev b b sa expiry (sync_bindings A b sa u).1
            (established_of_IsSettled b sa expiry s) in
      rw same (refl, sync_bindings-binds b sa u ∙ ensure_service_account-binds b v)

  -- What a merge patch does to the stored phase of an object: it carries the phase only if that
  -- differs between the object as read and the object as it is to be. The answer is of the same
  -- object.
  pub record IsMergePatch : Type 1 where
    pub phase : A.Binds → String → String → BindPhase
    pub patched :
        (orig new b : Bind) (s : A.Binds)
        → (A.patch_status orig new s).0 ≡ ok b
        → phase (A.patch_status orig new s).1 new.namespace new.name
          ≡ ite
              (BindPhase-discrete orig.status.sv.status new.status.sv.status)
              (phase s new.namespace new.name)
              new.status.sv.status
    pub named_alike :
        (orig new b : Bind) (s : A.Binds)
        → (A.patch_status orig new s).0 ≡ ok b
        → (b.namespace ≡ new.namespace) × (b.name ≡ new.name)
