-- ===== src/Operator/Reconcile/Stale.antt =====
-- Two writes in one reconcile against one baseline: what the second of them can leave out.
use mathlib.Core.Path.{ap₂}
use mathlib.Core.Logic.{ite, if_pos, if_neg}
use kube_argus.Base.{continue, ℕ, ◌<◌, ◌≡◌, ◌≢◌, refl, sym, ap, ◌∙◌, String, Result, ok, err, arith}
use kube_argus.Operator.Types.{
  Bind, BindPhase, BindPhase-discrete, ServiceAccount, ConditionStatus, binding, failed, is_unknown,
  is_false,
}
use kube_argus.Operator.Api.{Api, World, IsBindings}
use kube_argus.Operator.Sync.{Failure, cluster_kind, namespaced_kind}
use kube_argus.Operator.Steps.{
  done, with_phase, update_phase, sync_bindings, ensure_service_account,
}
use kube_argus.Operator.Reconcile.{expiry_of, with_ref, fail, reconcile}
use kube_argus.Operator.Reconcile.Reads.{returning-world, after_get, IsLive, reconcile-live}
use kube_argus.Operator.Reconcile.Grant.{named-ok}
use kube_argus.Operator.Reconcile.Bound.{sync_and_converge-fail}
use kube_argus.Operator.Reconcile.Ends.{reconcile_live-establish, establish-rebind_ok}
use kube_argus.Operator.Reconcile.Settle.{IsMergePatch, sync_bindings-binds}

module _ (A : Api) (C : IsBindings cluster_kind.key A.cluster_role_bindings)
    (R : IsBindings namespaced_kind.key A.role_bindings) (P : IsMergePatch A C R) where
  -- The stored phase after a successful `updatePhase`.
  pub phase-update_phase :
      (orig b b' : Bind) (phase : BindPhase) (c : ConditionStatus) (reason text : String)
      (w : World A)
      → (update_phase A orig b phase c reason text w).0 ≡ ok b'
      → P.phase (update_phase A orig b phase c reason text w).1.binds b.namespace b.name
        ≡ ite
            (BindPhase-discrete orig.status.sv.status phase)
            (P.phase w.binds b.namespace b.name)
            phase
  unfolding update_phase
  phase-update_phase orig b b' phase c reason text w h =
      P.patched orig (with_phase A b phase c reason text) b' w.binds
        (named-ok "updating status" _ h)

  kept_phase :
      (orig b b' : Bind) (phase : BindPhase) (c : ConditionStatus) (reason text : String)
      (w : World A)
      → orig.status.sv.status ≡ phase
      → (update_phase A orig b phase c reason text w).0 ≡ ok b'
      → P.phase (update_phase A orig b phase c reason text w).1.binds b.namespace b.name
        ≡ P.phase w.binds b.namespace b.name
  kept_phase orig b b' phase c reason text w e h =
      phase-update_phase orig b b' phase c reason text w h
      ∙ if_pos (BindPhase-discrete orig.status.sv.status phase) e
          (P.phase w.binds b.namespace b.name) phase

  pub set_phase :
      (orig b b' : Bind) (phase : BindPhase) (c : ConditionStatus) (reason text : String)
      (w : World A)
      → orig.status.sv.status ≢ phase
      → (update_phase A orig b phase c reason text w).0 ≡ ok b'
      → P.phase (update_phase A orig b phase c reason text w).1.binds b.namespace b.name ≡ phase
  set_phase orig b b' phase c reason text w n h =
      phase-update_phase orig b b' phase c reason text w h
      ∙ if_neg (BindPhase-discrete orig.status.sv.status phase) n
          (P.phase w.binds b.namespace b.name) phase

  pub alike :
      (orig b b' : Bind) (phase : BindPhase) (c : ConditionStatus) (reason text : String)
      (w : World A)
      → (update_phase A orig b phase c reason text w).0 ≡ ok b'
      → (b'.namespace ≡ b.namespace) × (b'.name ≡ b.name)
  unfolding update_phase
  alike orig b b' phase c reason text w h =
      P.named_alike orig (with_phase A b phase c reason text) b' w.binds
        (named-ok "updating status" _ h)

  failed≢binding : (p : BindPhase) → p ≡ failed → p ≢ binding
  failed≢binding p e d = cc

  -- The two writes, from the state `u` before the first, with a sync between them.
  module _ (b b' b'' : Bind) (sa : ServiceAccount) (u : World A) (f : Failure) where
    abbrev first : Result Failure Bind × World A
    first =
        update_phase A b (with_ref A b sa.uid) binding is_unknown "Syncing" "Syncing RBAC bindings"
          u

    abbrev synced : Result Failure (Unit {0}) × World A
    synced = sync_bindings A b' sa first.1

    abbrev second : Result Failure Bind × World A
    second =
        update_phase A b b' failed is_false "BindFailed" (A.error_text f.doing f.cause) synced.1

    first_phase :
        b.status.sv.status ≡ failed
        → first.0 ≡ ok b'
        → P.phase first.1.binds b.namespace b.name ≡ binding
    first_phase was h =
        set_phase b (with_ref A b sa.uid) b' binding is_unknown "Syncing" "Syncing RBAC bindings" u
          (failed≢binding b.status.sv.status was) h

    second_phase :
        b.status.sv.status ≡ failed
        → first.0 ≡ ok b'
        → second.0 ≡ ok b''
        → P.phase second.1.binds b.namespace b.name ≡ binding
    second_phase was h k =
        let (ns, n) =
          alike b (with_ref A b sa.uid) b' binding is_unknown "Syncing" "Syncing RBAC bindings" u
            h in
        let kept =
          kept_phase b b' b'' failed is_false "BindFailed" (A.error_text f.doing f.cause) synced.1
            was k in
        ap₂ (P.phase second.1.binds) (sym ns) (sym n)
        ∙ kept
        ∙ ap₂ (P.phase synced.1.binds) ns n
        ∙ ap (λ s. P.phase s b.namespace b.name) (sync_bindings-binds A C R b' sa first.1)
        ∙ first_phase was h

    fail-phase :
        b.status.sv.status ≡ failed
        → first.0 ≡ ok b'
        → second.0 ≡ ok b''
        → P.phase (fail A b b' "BindFailed" f synced.1).1.binds b.namespace b.name ≡ binding
    unfolding fail
    fail-phase was h k =
        ap (λ (t : World A). P.phase t.binds b.namespace b.name)
          (returning-world A C R done
            (update_phase A b b' failed is_false "BindFailed" (A.error_text f.doing f.cause))
            synced.1)
        ∙ second_phase was h k

    fail-ok : second.0 ≡ ok b'' → (fail A b b' "BindFailed" f synced.1).0 ≡ ok done
    unfolding fail
    fail-ok k = rw (k, continue) refl

  -- A live, unexpired bind that failed before and fails again in `syncBindings` is left with the
  -- stored phase `binding`, and not `failed`, though both status writes succeeded: the second is
  -- taken against the object as it was read, whose phase is `failed` already, so its merge patch does
  -- not carry the phase. The reconcile returns no error and no requeue.
  pub reconcile_failed_again :
      (now later : ℕ) (namespace name : String) (w : World A) (b b' b'' : Bind)
      (sa : ServiceAccount) (ttl : ℕ) (f : Failure)
      → (A.get namespace name w.binds).0 ≡ ok b
      → IsLive A C R b
      → A.parse_duration b.spec.ttl ≡ ok ttl
      → now < expiry_of A b ttl
      → b.status.sv.status ≡ failed
      → (ensure_service_account A b (after_get A C R namespace name w)).0 ≡ ok sa
      → let u = (ensure_service_account A b (after_get A C R namespace name w)).1 in
        (first b b' b'' sa u f).0 ≡ ok b'
        → (synced b b' b'' sa u f).0 ≡ err f
        → (second b b' b'' sa u f).0 ≡ ok b''
        → ((reconcile A now later namespace name w).0 ≡ ok done)
          × (P.phase (reconcile A now later namespace name w).1.binds b.namespace b.name ≡ binding)
  reconcile_failed_again now later namespace name w b b' b'' sa ttl f g l p h was a r y k =
      let v = after_get A C R namespace name w in
      let u = (ensure_service_account A b v).1 in
      let expiry = expiry_of A b ttl in
      let same =
        reconcile-live A C R now later namespace name w b g l
        ∙ reconcile_live-establish A C R now later v b ttl p h
        ∙ establish-rebind_ok A C R later b expiry v sa b' a (ground (arith, was)) r
        ∙ sync_and_converge-fail A C R later b.status.sv.status b b' sa expiry
            (first b b' b'' sa u f).1 f y in
      rw same (fail-ok b b' b'' sa u f k, fail-phase b b' b'' sa u f was r k)
