-- ===== src/Operator/Reconcile/Phases.antt =====
-- The phase that a reconcile of a live bind leaves in the store, if it was neither bound nor failed.
use mathlib.Core.Path.{ap₂}
use kube_argus.Base.{
  continue, ℕ, ◌≡◌, ◌≢◌, refl, ap, ◌⊎◌, inl, inr, false, String, Result, ok, err, arith,
  Outcome-cases, Result-cases, Exec,
}
use kube_argus.Operator.Types.{
  Bind, BindPhase, ServiceAccount, binding, binded, failed, is_unknown, is_false, is_true,
}
use kube_argus.Operator.Api.{Api, World, IsBindings}
use kube_argus.Operator.Sync.{Failure, cluster_kind, namespaced_kind}
use kube_argus.Operator.Steps.{Requeue, done, is_binded, update_phase, returning, sync_bindings}
use kube_argus.Operator.Reconcile.{
  with_ref, with_expiry, bound_message, is_established, fail, converge, sync_and_converge,
  establish,
}
use kube_argus.Operator.Reconcile.Reads.{returning-world}
use kube_argus.Operator.Reconcile.Bound.{
  binding_write, requeue, converge-write, sync_and_converge-go, sync_and_converge-fail,
}
use kube_argus.Operator.Reconcile.Ends.{
  ensured, rebinding, establish-fail, establish-rebind, establish-rebind_ok, continue_stop,
}
use kube_argus.Operator.Reconcile.Settle.{IsMergePatch}
use kube_argus.Operator.Reconcile.Stale.{set_phase, alike}

module _ (A : Api) (C : IsBindings cluster_kind.key A.cluster_role_bindings)
    (R : IsBindings namespaced_kind.key A.role_bindings) (P : IsMergePatch A C R) where
  -- The object is stored as bound or as failed.
  abbrev pub Ended : Bind → World A → Type 0
  Ended b t =
      (P.phase t.binds b.namespace b.name ≡ binded) ⊎ (P.phase t.binds b.namespace b.name ≡ failed)

  continue-ok :
      {X : Type 0} (p q : Requeue) (r : Result Failure X) (t : World A)
      → (continue {B = Requeue} r (λ _ v. (ok p, v)) t).0 ≡ ok q
      → (x : X) × (r ≡ ok x)
  continue-ok p q (ok x) t h = (x, refl)
  continue-ok p q (err f) t h = ground arith

  pub returning-ok :
      {X : Type 0} (p q : Requeue) (m : Exec (World A) Failure X) (w : World A)
      → (returning A p m w).0 ≡ ok q
      → (x : X) × ((m w).0 ≡ ok x)
  returning-ok p q m w h = continue-ok p q (m w).0 (m w).1 h

  fail-Ended :
      (orig b : Bind) (reason : String) (f : Failure) (w : World A) (q : Requeue)
      → orig.status.sv.status ≢ failed
      → (fail A orig b reason f w).0 ≡ ok q
      → Ended b (fail A orig b reason f w).1
  unfolding fail
  fail-Ended orig b reason f w q n h =
      let write = update_phase A orig b failed is_false reason (A.error_text f.doing f.cause) in
      let (b', e) = returning-ok done q write w h in
      rw (returning-world A C R done write w)
        (inr (set_phase A C R P orig b b' failed is_false reason _ w n e))

  unestablished :
      (prev : BindPhase) (b : Bind) (ref : String) (expiry : ℕ)
      → is_binded prev ≡ false
      → is_established A prev b ref expiry ≡ false
  unfolding is_established
  unestablished prev b ref expiry h = ground arith

  converge-Ended :
      (later : ℕ) (orig b : Bind) (sa : ServiceAccount) (expiry : ℕ) (w : World A) (q : Requeue)
      → is_binded orig.status.sv.status ≡ false
      → orig.status.sv.status ≢ binded
      → (converge A later orig.status.sv.status orig b sa expiry w).0 ≡ ok q
      → Ended b (converge A later orig.status.sv.status orig b sa expiry w).1
  converge-Ended later orig b sa expiry w q i n h =
      let prev = orig.status.sv.status in
      let same =
        converge-write A C R later prev orig b sa expiry w (unestablished prev b sa.uid expiry i) in
      let write = binding_write A C R later prev orig b sa expiry in
      let p = requeue A C R later prev orig b sa expiry in
      let (b', e) = returning-ok p q write w (rw same at h) in
      rw (same, returning-world A C R p write w)
        (inl (
          set_phase A C R P orig (with_expiry A (with_ref A b sa.uid) expiry) b' binded is_true
            "Bound" (bound_message A b) w n e))

  sync-Ended :
      (later : ℕ) (orig b : Bind) (sa : ServiceAccount) (expiry : ℕ) (w : World A) (q : Requeue)
      → is_binded orig.status.sv.status ≡ false
      → orig.status.sv.status ≢ binded
      → orig.status.sv.status ≢ failed
      → (sync_and_converge A later orig.status.sv.status orig b sa expiry w).0 ≡ ok q
      → Ended b (sync_and_converge A later orig.status.sv.status orig b sa expiry w).1
  sync-Ended later orig b sa expiry w q i nb nf h = elim (Result-cases (sync_bindings A b sa w).0) [
    | inl y ↦
        let same = sync_and_converge-go A C R later orig.status.sv.status orig b sa expiry w y in
        rw same (converge-Ended later orig b sa expiry _ q i nb (rw same at h))
    | inr (f, y) ↦
        let same =
          sync_and_converge-fail A C R later orig.status.sv.status orig b sa expiry w f y in
        rw same (fail-Ended orig b "BindFailed" f _ q nf (rw same at h))
  ]

  Ended-alike :
      (b b' : Bind) (t : World A)
      → (b'.namespace ≡ b.namespace) × (b'.name ≡ b.name)
      → Ended b' t
      → Ended b t
  Ended-alike b b' t (ns, n) e = ground (arith, ap₂ (P.phase t.binds) ns n)

  -- From the ServiceAccount on.
  pub establish-Ended :
      (later : ℕ) (b : Bind) (expiry : ℕ) (w : World A) (q : Requeue)
      → is_binded b.status.sv.status ≡ false
      → b.status.sv.status ≢ binded
      → b.status.sv.status ≢ failed
      → (establish A later b expiry w).0 ≡ ok q
      → Ended b (establish A later b expiry w).1
  establish-Ended later b expiry w q i nb nf h =
      elim (Outcome-cases (ensured A C R later b expiry w).0) [
        | inr (f, p) ↦
            let same = establish-fail A C R later b expiry w f p in
            rw same (fail-Ended b b "ServiceAccountFailed" f _ q nf (rw same at h))
        | inl (sa, p) ↦ elim (Outcome-cases (rebinding A C R later b expiry w sa).0) [
          | inr (f, u) ↦ cc (
            h,
            ap (λ x. x.0) (establish-rebind A C R later b expiry w sa p i),
            continue_stop A C R later b expiry w _ _ f (rebinding A C R later b expiry w sa).1 u,
          )
          | inl (b', u) ↦
              let same = establish-rebind_ok A C R later b expiry w sa b' p i u in
              rw same (
                Ended-alike b b'
                  (sync_and_converge A later b.status.sv.status b b' sa expiry
                    (rebinding A C R later b expiry w sa).1).1
                  (alike A C R P b (with_ref A b sa.uid) b' binding is_unknown "Syncing"
                    "Syncing RBAC bindings" (ensured A C R later b expiry w).1 u)
                  (sync-Ended later b b' sa expiry (rebinding A C R later b expiry w sa).1 q i nb nf
                    (rw same at h)))
        ]
      ]
