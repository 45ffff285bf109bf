-- ===== src/Operator/Reconcile/Progress.antt =====
-- A bind that nobody deletes gets to the phase binded or failed: each reconcile brings it nearer.
use kube_argus.Base.{
  ℕ, ◌<◌, ◌≡◌, ◌≢◌, ◌∙◌, refl, ◌⊎◌, inl, inr, true, false, Bool, String, none, Result, ok, arith,
  Bool-cases, pos,
}
use mathlib.Core.Path.{ap₂}
use kube_argus.Operator.Types.{
  Bind, BindPhase, pending, binded, failed, is_unknown, ConditionStatus,
}
use kube_argus.Operator.Api.{Api, World, IsBindings}
use kube_argus.Operator.Sync.{Failure, cluster_kind, namespaced_kind}
use kube_argus.Operator.Steps.{
  Requeue, done, second, is_unset, has_finalizer, add_finalizer, on_binds, call, update_phase,
  returning, with_phase,
}
use kube_argus.Operator.Reconcile.{expiry_of, reconcile_read, reconcile}
use kube_argus.Operator.Reconcile.Reads.{
  returning-world, IsLive, after_get, reconcile-read, reconcile-live,
}
use kube_argus.Operator.Reconcile.Grant.{named-ok}
use kube_argus.Operator.Reconcile.Ends.{reconcile_live-establish}
use kube_argus.Operator.Reconcile.Settle.{IsMergePatch}
use kube_argus.Operator.Reconcile.Stale.{set_phase}
use kube_argus.Operator.Reconcile.Stages.{
  to_go, has_finalizer-add, to_go-guard, to_go-live, to_go-ended, to_go-unset, unset-pending,
  not_binded,
}
use kube_argus.Operator.Reconcile.Phases.{Ended, returning-ok, establish-Ended}

module _ (A : Api) (C : IsBindings cluster_kind.key A.cluster_role_bindings)
    (R : IsBindings namespaced_kind.key A.role_bindings) (P : IsMergePatch A C R) where
  -- What the store does with the custom resource: a Get reads it and changes nothing, an Update stores
  -- the finalizers and leaves the status, a patch of the status leaves the finalizers.
  pub record IsBindStore : Type 1 where
    pub guarded : A.Binds → String → String → Bool
    pub looked :
        (namespace name : String) (s : A.Binds)
        → (guarded (A.get namespace name s).1 namespace name ≡ guarded s namespace name)
          × (P.phase (A.get namespace name s).1 namespace name ≡ P.phase s namespace name)
    pub read :
        (b : Bind) (s : A.Binds)
        → (A.get b.namespace b.name s).0 ≡ ok b
        → (guarded (A.get b.namespace b.name s).1 b.namespace b.name ≡ has_finalizer b)
          × (P.phase (A.get b.namespace b.name s).1 b.namespace b.name ≡ b.status.sv.status)
    pub updated :
        (b b' : Bind) (s : A.Binds)
        → (A.update b s).0 ≡ ok b'
        → (guarded (A.update b s).1 b.namespace b.name ≡ has_finalizer b)
          × (P.phase (A.update b s).1 b.namespace b.name ≡ P.phase s b.namespace b.name)
    pub patched :
        (orig new b : Bind) (s : A.Binds)
        → (A.patch_status orig new s).0 ≡ ok b
        → guarded (A.patch_status orig new s).1 new.namespace new.name
          ≡ guarded s new.namespace new.name

  module _ (G : IsBindStore) where
    -- The reconciles to go of the stored object.
    abbrev pub left : Bind → World A → ℕ
    left b t = to_go (G.guarded t.binds b.namespace b.name) (P.phase t.binds b.namespace b.name)

    -- The stored object has the finalizer or not, and this phase.
    abbrev pub Stored : Bind → World A → Bool → BindPhase → Type 0
    Stored b t guarded phase =
        (G.guarded t.binds b.namespace b.name ≡ guarded)
        × (P.phase t.binds b.namespace b.name ≡ phase)

    -- What a reconcile of a bind that is neither bound nor failed leaves in the store.
    abbrev pub Stage : Bind → World A → Type 0
    Stage b t =
        ((has_finalizer b ≡ false) × Stored b t true b.status.sv.status)
        ⊎ (((has_finalizer b ≡ true)
              × (is_unset b.status.sv.status ≡ true)
              × Stored b t true pending)
            ⊎ ((has_finalizer b ≡ true)
                × (is_unset b.status.sv.status ≡ false)
                × Ended A C R P b t))

    guarding : Bind → World A → Result Failure Requeue × World A
    guarding b =
        returning A done (on_binds A (call A "adding finalizer" (A.update (add_finalizer b))))

    accepting : Bind → World A → Result Failure Requeue × World A
    accepting b =
        returning A (record { after = pos second })
          (update_phase A b b pending is_unknown "Accepted" "Bind accepted, pending sync")

    module _ (now later : ℕ) (b : Bind) (w : World A) (d : b.deletion ≡ none) where
      first_read : has_finalizer b ≡ false → reconcile_read A now later b w ≡ guarding b w
      unfolding reconcile_read guarding
      first_read f = ground arith

      second_read :
          has_finalizer b ≡ true
          → is_unset b.status.sv.status ≡ true
          → reconcile_read A now later b w ≡ accepting b w
      unfolding reconcile_read accepting
      second_read f u = ground arith

    update_phase-guarded :
        (orig b b' : Bind) (phase : BindPhase) (c : ConditionStatus) (reason text : String)
        (w : World A)
        → (update_phase A orig b phase c reason text w).0 ≡ ok b'
        → G.guarded (update_phase A orig b phase c reason text w).1.binds b.namespace b.name
          ≡ G.guarded w.binds b.namespace b.name
    unfolding update_phase
    update_phase-guarded orig b b' phase c reason text w h =
        G.patched orig (with_phase A b phase c reason text) b' w.binds
          (named-ok "updating status" _ h)

    -- With the object as it was read.
    module _ (b : Bind) (w : World A) (g : (A.get b.namespace b.name w.binds).0 ≡ ok b) where
      abbrev v : World A
      v = after_get A C R b.namespace b.name w

      guarding-Stored :
          (q : Requeue)
          → (guarding b v).0 ≡ ok q
          → Stored b (guarding b v).1 true b.status.sv.status
      unfolding guarding
      guarding-Stored q h =
          let m = on_binds A (call A "adding finalizer" (A.update (add_finalizer b))) in
          let (b', e) = returning-ok A C R P done q m v h in
          let (k, p) = G.updated (add_finalizer b) b' v.binds (named-ok "adding finalizer" _ e) in
          rw (returning-world A C R done m v) (k ∙ has_finalizer-add b, p ∙ (G.read b w.binds g).1)

      accepting-Stored :
          (q : Requeue)
          → has_finalizer b ≡ true
          → is_unset b.status.sv.status ≡ true
          → (accepting b v).0 ≡ ok q
          → Stored b (accepting b v).1 true pending
      unfolding accepting
      accepting-Stored q f u h =
          let m = update_phase A b b pending is_unknown "Accepted" "Bind accepted, pending sync" in
          let (b', e) = returning-ok A C R P (record { after = pos second }) q m v h in
          rw (returning-world A C R (record { after = pos second }) m v) (
            (
              update_phase-guarded b b b' pending is_unknown "Accepted"
                    "Bind accepted, pending sync" v e
                  ∙ (G.read b w.binds g).0
                  ∙ f,
              set_phase A C R P b b b' pending is_unknown "Accepted" "Bind accepted, pending sync" v
                  (unset-pending b.status.sv.status u) e,
            ))

    -- A reconcile that returns no error, of a bind that is neither bound nor failed, is not deleted and
    -- has not expired, leaves one of these in the store: if the bind had no finalizer, it has it, in the
    -- phase it was in; if it had it and no phase, it has it still, and the phase pending; and in any other
    -- phase it is bound or failed. So the reconciles that it is away from its end, which are three at
    -- first sight, get fewer.
    pub reconcile_nearer :
        (now later : ℕ) (w : World A) (b : Bind) (ttl : ℕ) (q : Requeue)
        → (A.get b.namespace b.name w.binds).0 ≡ ok b
        → b.deletion ≡ none
        → A.parse_duration b.spec.ttl ≡ ok ttl
        → now < expiry_of A b ttl
        → b.status.sv.status ≢ binded
        → b.status.sv.status ≢ failed
        → (reconcile A now later b.namespace b.name w).0 ≡ ok q
        → Stage b (reconcile A now later b.namespace b.name w).1
          × (left b (reconcile A now later b.namespace b.name w).1
              < to_go (has_finalizer b) b.status.sv.status)
    reconcile_nearer now later w b ttl q g d p x nb nf h =
        let t = after_get A C R b.namespace b.name w in
        let start = reconcile-read A C R now later b.namespace b.name w b g in
        elim (Bool-cases (has_finalizer b)) [
          | inr f ↦
              let same = start ∙ first_read now later b t d f in
              let (k, r) = guarding-Stored b w g q (rw same at h) in
              rw (same, f)
                (inl (refl, (k, r)), rw (ap₂ to_go k r) (to_go-guard b.status.sv.status nb nf))
          | inl f ↦ elim (Bool-cases (is_unset b.status.sv.status)) [
            | inl u ↦
                let same = start ∙ second_read now later b t d f u in
                let (k, r) = accepting-Stored b w g q f u (rw same at h) in
                rw (same, f)
                  (
                    inr (inl (refl, u, (k, r))),
                    rw (ap₂ to_go k r) (to_go-unset b.status.sv.status u),
                  )
            | inr u ↦
                let live : IsLive A C R b = record { kept = d; guarded = f; seen = u } in
                let same =
                  reconcile-live A C R now later b.namespace b.name w b g live
                  ∙ reconcile_live-establish A C R now later t b ttl p x in
                let e =
                  establish-Ended A C R P later b (expiry_of A b ttl) t q
                    (not_binded b.status.sv.status nb) nb nf (rw same at h) in
                rw (same, f)
                  (
                    inr (inr (refl, u, e)),
                    rw (to_go-ended _ _ e, to_go-live b.status.sv.status u nb nf) (omega arith),
                  )
          ]
        ]
