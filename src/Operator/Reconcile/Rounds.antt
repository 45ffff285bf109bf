-- ===== src/Operator/Reconcile/Rounds.antt =====
-- The reconciles of one bind in a row, with what happens to the cluster between them: `Reconcile` of
-- operator/internal/controller/userauthenticationbind_controller.go, called again for each change and
-- each requeue.
use kube_argus.Base.{ℕ, suc, ◌+◌, ◌<◌, ◌≤◌, ◌≡◌, ◌≢◌, ◌⊎◌, Bool, String, none, ok, arith, sym, ◌∙◌}
use mathlib.Core.Path.{subst, ap₂}
use kube_argus.Operator.Types.{Bind, BindPhase, binded, failed}
use kube_argus.Operator.Api.{Api, World, IsBindings}
use kube_argus.Operator.Sync.{cluster_kind, namespaced_kind}
use kube_argus.Operator.Steps.{Requeue}
use kube_argus.Operator.Reconcile.{expiry_of, reconcile}
use kube_argus.Operator.Reconcile.Settle.{IsMergePatch}
use kube_argus.Operator.Reconcile.Stages.{to_go, to_go-three, to_go-none}
use kube_argus.Operator.Reconcile.Progress.{IsBindStore, reconcile_nearer}

module _ (A : Api) (C : IsBindings cluster_kind.key A.cluster_role_bindings)
    (R : IsBindings namespaced_kind.key A.role_bindings) (P : IsMergePatch A C R)
    (G : IsBindStore A C R P) where
  -- The reconciles that the stored object is away from its end.
  abbrev away : String → String → World A → ℕ
  away namespace name w = to_go (G.guarded w.binds namespace name) (P.phase w.binds namespace name)

  Nearer : ℕ → ℕ → Bind → Requeue → World A → String → String → Type 0
  Nearer now later b q w namespace name =
      (A.get namespace name w.binds).0 ≡ ok b
      → (reconcile A now later namespace name w).0 ≡ ok q
      → away namespace name (reconcile A now later namespace name w).1 < away namespace name w

  module _ (namespace name : String) where
    -- A reconcile that finds the bind, not deleted, not expired, and in no phase that ends its way, and
    -- that returns no error.
    pub record Round (w : World A) : Type 0 where
      pub now : ℕ
      pub later : ℕ
      pub bind : Bind
      pub ttl : ℕ
      pub requeue : Requeue
      pub found : (A.get namespace name w.binds).0 ≡ ok bind
      pub in_namespace : bind.namespace ≡ namespace
      pub called : bind.name ≡ name
      pub kept : bind.deletion ≡ none
      pub lives : A.parse_duration bind.spec.ttl ≡ ok ttl
      pub early : now < expiry_of A bind ttl
      pub not_binded : bind.status.sv.status ≢ binded
      pub not_failed : bind.status.sv.status ≢ failed
      pub passed : (reconcile A now later namespace name w).0 ≡ ok requeue

    abbrev pub guarded : World A → Bool
    guarded w = G.guarded w.binds namespace name

    abbrev pub phase : World A → BindPhase
    phase w = P.phase w.binds namespace name

    -- So many rounds, one after the other; between them, anything that leaves the finalizer and the phase
    -- of this bind.
    pub data Rounds (w : World A) : ℕ → World A → Type 0 where
      start : {v : World A} → v ≡ w → Rounds w 0 v
      round :
          {n m : ℕ} {u v : World A}
          → Rounds w n u
          → (r : Round u) → v ≡ (reconcile A r.now r.later namespace name u).1
          → m ≡ suc n
          → Rounds w m v
      elsewhere :
          {n : ℕ} {u v : World A}
          → Rounds w n u
          → guarded v ≡ guarded u
          → phase v ≡ phase u
          → Rounds w n v

    round-nearer :
        (u : World A) (r : Round u)
        → away namespace name (reconcile A r.now r.later namespace name u).1 < away namespace name u
    unfolding Nearer
    round-nearer u r =
        let at = Nearer r.now r.later r.bind r.requeue u in
        let own : at r.bind.namespace r.bind.name = λ g h.
          let (k, p) = G.read r.bind u.binds g in
          let (k', p') = G.looked r.bind.namespace r.bind.name u.binds in
          subst
            (λ n.
              away r.bind.namespace r.bind.name
                (reconcile A r.now r.later r.bind.namespace r.bind.name u).1
              < n)
            (ap₂ to_go (sym k ∙ k') (sym p ∙ p'))
            (reconcile_nearer A C R P G r.now r.later u r.bind r.ttl r.requeue g r.kept r.lives
              r.early r.not_binded r.not_failed h).1 in
        let same = subst (λ n. at r.bind.namespace n) r.called own in
        subst (λ s. at s name) r.in_namespace same r.found r.passed

    Rounds-away :
        (w v : World A) (n : ℕ) → Rounds w n v → n + away namespace name v ≤ away namespace name w
    Rounds-away w v n (start e) = rw e (omega arith)
    Rounds-away w v n (round {n = k} {u = u} h r e f) =
        let before = Rounds-away w u k h in let nearer = round-nearer u r in rw (e, f) (omega arith)
    Rounds-away w v n (elsewhere {u = u} h g p) = rw (g, p) (Rounds-away w u n h)

    -- A bind that is not deleted, has not expired, and is neither bound nor failed yet, can only be
    -- reconciled three times with no error, whatever happens in between that leaves its finalizer and
    -- its phase: no row of such reconciles is longer, and after the third one the bind is stored as
    -- bound or as failed.
    pub Rounds-end :
        (w v : World A) (n : ℕ)
        → Rounds w n v
        → (n ≤ 3) × (n ≡ 3 → (phase v ≡ binded) ⊎ (phase v ≡ failed))
    Rounds-end w v n h =
        let bound = Rounds-away w v n h in
        let three =
          to_go-three (G.guarded w.binds namespace name) (P.phase w.binds namespace name) in
        (omega arith, λ e. to_go-none (G.guarded v.binds namespace name) _ (omega arith))
