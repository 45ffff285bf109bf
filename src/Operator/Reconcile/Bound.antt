-- ===== src/Operator/Reconcile/Bound.antt =====
-- How a reconcile of a live, unexpired bind ends.
use kube_argus.Base.{ℕ, ◌≡◌, refl, sym, ap, ◌⊎◌, inl, inr, String, true, false}
use kube_argus.Base.{Result, ok, err, arith, Exec, continue, Result-cases}
use kube_argus.Base.{Bool-cases, sub_ℕ}
use kube_argus.Operator.Types.{Bind, BindPhase, ServiceAccount, binded, failed, is_true, is_false}
use kube_argus.Operator.Api.{Api, World, IsBindings}
use kube_argus.Operator.Sync.{Failure, cluster_kind, namespaced_kind}
use kube_argus.Operator.Steps.{Requeue, done, with_phase, update_phase, returning, sync_bindings}
use kube_argus.Operator.Reconcile.{
  is_established, with_ref, with_expiry, bound_message, converge, fail, sync_and_converge,
}
use kube_argus.Operator.Reconcile.Reads.{returning-world}
use kube_argus.Operator.Reconcile.Grant.{Granted, sync_bindings-Granted}

module _ (A : Api) (C : IsBindings cluster_kind.key A.cluster_role_bindings)
    (R : IsBindings namespaced_kind.key A.role_bindings) where
  -- The last thing written of the custom resource is its status with the phase `failed`, the reason and
  -- the text of the failure; it is a patch against the object `orig`, sent from the world `u`.
  abbrev pub SentFailed : Bind → Bind → String → Failure → World A → World A → Type 0
  SentFailed orig b reason f u t =
      t.binds
      ≡ (A.patch_status orig (with_phase A b failed is_false reason (A.error_text f.doing f.cause))
          u.binds).1

  returning-after :
      {X : Type 0} (p q : Requeue) (r : Result Failure X) (t : World A)
      → (continue {B = Requeue} r (λ _ v. (ok p, v)) t).0 ≡ ok q
      → p ≡ q
  returning-after p q (ok x) t h = cc
  returning-after p q (err f) t h = cc

  pub fail-SentFailed :
      (orig b : Bind) (reason : String) (f : Failure) (w : World A) (q : Requeue)
      → (fail A orig b reason f w).0 ≡ ok q
      → SentFailed orig b reason f w (fail A orig b reason f w).1 × (done ≡ q)
  unfolding fail
  fail-SentFailed orig b reason f w q h =
      let text = A.error_text f.doing f.cause in
      let write = update_phase A orig b failed is_false reason text in
      (
        rw (returning-world A C R done write w) (unfold update_phase in refl),
        returning-after done q (write w).0 (write w).1 h,
      )

  module _ (later : ℕ) (prev : BindPhase) (orig b : Bind) (sa : ServiceAccount) (expiry : ℕ) where
    abbrev pub requeue : Requeue
    requeue = record { after = sub_ℕ expiry later }

    abbrev pub binding_write : Exec (World A) Failure Bind
    binding_write =
        update_phase A orig (with_expiry A (with_ref A b sa.uid) expiry) binded is_true "Bound"
          (bound_message A b)

    pub converge-settled :
        (w : World A)
        → is_established A prev b sa.uid expiry ≡ true
        → converge A later prev orig b sa expiry w ≡ (ok requeue, w)
    unfolding converge
    converge-settled w e = ground arith

    pub converge-write :
        (w : World A)
        → is_established A prev b sa.uid expiry ≡ false
        → converge A later prev orig b sa expiry w ≡ returning A requeue binding_write w
    unfolding converge
    converge-write w e = ground arith

  -- The bindings are as they were.
  pub record SameBindings (w t : World A) : Type 0 where
    pub crbs : t.crbs ≡ w.crbs
    pub rbs : t.rbs ≡ w.rbs

  Granted-SameBindings :
      (b : Bind) (sa : ServiceAccount) (w t v : World A)
      → SameBindings t v
      → Granted A C R b sa w t
      → Granted A C R b sa w v
  Granted-SameBindings b sa w t v s g = record {
    cluster_roles = g.cluster_roles;
    cluster_roles_listed = g.cluster_roles_listed;
    crbs = rw s.crbs g.crbs;
    roles = g.roles;
    roles_listed = g.roles_listed;
    rbs = rw s.rbs g.rbs;
  }

  pub update_phase-SameBindings :
      (orig b : Bind) (phase : BindPhase) (c : _) (reason text : String) (w : World A)
      → SameBindings w (update_phase A orig b phase c reason text w).1
  unfolding update_phase
  update_phase-SameBindings orig b phase c reason text w = record { crbs = refl; rbs = refl }

  module _ (later : ℕ) (prev : BindPhase) (orig b : Bind) (sa : ServiceAccount) (expiry : ℕ) where
    converge-SameBindings :
        (w : World A) → SameBindings w (converge A later prev orig b sa expiry w).1
    converge-SameBindings w = elim (Bool-cases (is_established A prev b sa.uid expiry)) [
      | inl e ↦
          rw (converge-settled later prev orig b sa expiry w e) (record { crbs = refl; rbs = refl })
      | inr e ↦ rw (converge-write later prev orig b sa expiry w e) (
          rw
            (returning-world A C R (requeue later prev orig b sa expiry)
              (binding_write later prev orig b sa expiry))
            (update_phase-SameBindings orig _ binded is_true "Bound" (bound_message A b) w))
    ]

    converge-after :
        (w : World A) (q : Requeue)
        → (converge A later prev orig b sa expiry w).0 ≡ ok q
        → requeue later prev orig b sa expiry ≡ q
    converge-after w q h = elim (Bool-cases (is_established A prev b sa.uid expiry)) [
      | inl e ↦ cc (h, converge-settled later prev orig b sa expiry w e)
      | inr e ↦ returning-after _ q _ _ (rw (converge-write later prev orig b sa expiry w e) at h)
    ]

    -- From `syncBindings` on: it failed, and so did the bind; or the bindings agree with the roles, and
    -- there is a requeue at the expiry.
    abbrev pub SyncEnds : World A → Requeue → World A → Type 0
    SyncEnds w q t =
        ((f : Failure) × ((sync_bindings A b sa w).0 ≡ err f)
          × SentFailed orig b "BindFailed" f (sync_bindings A b sa w).1 t
          × (done ≡ q))
        ⊎ (Granted A C R b sa w t × (q.after ≡ sub_ℕ expiry later))

    pub sync_and_converge-go :
        (w : World A)
        → (sync_bindings A b sa w).0 ≡ ok tt
        → sync_and_converge A later prev orig b sa expiry w
          ≡ converge A later prev orig b sa expiry (sync_bindings A b sa w).1
    unfolding sync_and_converge
    sync_and_converge-go w p = ground arith

    pub sync_and_converge-fail :
        (w : World A) (f : Failure)
        → (sync_bindings A b sa w).0 ≡ err f
        → sync_and_converge A later prev orig b sa expiry w
          ≡ fail A orig b "BindFailed" f (sync_bindings A b sa w).1
    unfolding sync_and_converge
    sync_and_converge-fail w f p = ground arith

    pub sync_and_converge-SyncEnds :
        (w : World A) (q : Requeue)
        → (sync_and_converge A later prev orig b sa expiry w).0 ≡ ok q
        → SyncEnds w q (sync_and_converge A later prev orig b sa expiry w).1
    sync_and_converge-SyncEnds w q h = elim (Result-cases (sync_bindings A b sa w).0) [
      | inr (f, p) ↦
          let same = sync_and_converge-fail w f p in
          let (sent, a) = fail-SentFailed orig b "BindFailed" f _ q (rw same at h) in
          rw same (inl (f, p, sent, a))
      | inl p ↦ rw (sync_and_converge-go w p) (
          inr (
            Granted-SameBindings b sa w _ _ (converge-SameBindings (sync_bindings A b sa w).1)
                (sync_bindings-Granted A C R b sa w p),
            ap (λ (r : Requeue). r.after)
                (sym (
                  converge-after (sync_bindings A b sa w).1 q
                    (rw (sync_and_converge-go w p) at h))),
          ))
    ]
