-- ===== src/Operator/Reconcile/Revoke.antt =====
-- How access ends: an expired bind and a deleted one lose every binding with their label.
use kube_argus.Base.{ℕ, ◌≤◌, ◌≡◌, refl, ap, ◌∙◌, ◌⊎◌, inl, inr, String, true, false, some}
use kube_argus.Base.{Result, ok, err, arith, Exec, continue, Result-cases}
use kube_argus.Operator.Types.{Bind, unbound, is_false}
use kube_argus.Operator.Api.{Api, World, IsBindings}
use kube_argus.Operator.Sync.{Failure, delete_kind, cluster_kind, namespaced_kind}
use kube_argus.Operator.Sync.Synced.{delete_kind-Released}
use kube_argus.Operator.Sync.Released.{Released}
use kube_argus.Operator.Steps.{
  Requeue, done, is_unbound, has_finalizer, with_phase, without_finalizer, update_phase, returning,
  delete_owned, reconcile_delete, on_binds, call,
}
use kube_argus.Operator.Reconcile.{expiry_of, expire, reconcile_live, reconcile_read, reconcile}
use kube_argus.Operator.Reconcile.Reads.{
  returning-world, continue-binds, after_get, IsLive, reconcile-live,
}

module _ (A : Api) (C : IsBindings cluster_kind.key A.cluster_role_bindings)
    (R : IsBindings namespaced_kind.key A.role_bindings) where
  -- Both kinds of binding are released.
  pub record Revoked (uid : String) (w t : World A) : Type 0 where
    pub crbs : Released A.cluster_role_bindings cluster_kind C uid w.crbs t.crbs
    pub rbs : Released A.role_bindings namespaced_kind R uid w.rbs t.rbs

  delete_owned-Revoked :
      (uid : String) (w : World A)
      → (delete_owned A uid w).0 ≡ ok tt
      → Revoked uid w (delete_owned A uid w).1
  unfolding delete_owned
  delete_owned-Revoked uid w h =
      elim (Result-cases (delete_kind A.cluster_role_bindings cluster_kind uid w.crbs).0) [
        | inl p ↦
            rw (p, continue)
              (record {
                crbs = delete_kind-Released A.cluster_role_bindings cluster_kind C uid w.crbs p;
                rbs =
                    delete_kind-Released A.role_bindings namespaced_kind R uid w.rbs
                      (rw (p, continue) at h);
              })
        | inr (f, p) ↦ cc (h, p)
      ]

  -- Deleting bindings sends nothing about the custom resource.
  delete_owned-binds : (uid : String) (w : World A) → (delete_owned A uid w).1.binds ≡ w.binds
  unfolding delete_owned
  delete_owned-binds uid w = continue-binds A C R _ _ _ (λ x v. refl)

  -- The write that marks the bind as unbound.
  abbrev pub unbind : Bind → World A → A.Binds
  unbind b w =
      (A.patch_status b (with_phase A b unbound is_false "Expired" "TTL elapsed") w.binds).1

  pub record Expired (b : Bind) (w t : World A) : Type 0 where
    pub revoked : Revoked b.uid w t
    pub marked : t.binds ≡ unbind b w

  abbrev unbinding : Bind → Exec (World A) Failure Requeue
  unbinding b = returning A done (update_phase A b b unbound is_false "Expired" "TTL elapsed")

  expire-go :
      (b : Bind) (w : World A)
      → is_unbound b.status.sv.status ≡ false
      → (delete_owned A b.uid w).0 ≡ ok tt
      → expire A b w ≡ unbinding b (delete_owned A b.uid w).1
  unfolding expire
  expire-go b w u p = ground arith

  expire-stop :
      (b : Bind) (w : World A) (f : Failure)
      → is_unbound b.status.sv.status ≡ false
      → (delete_owned A b.uid w).0 ≡ err f
      → (expire A b w).0 ≡ err f
  unfolding expire
  expire-stop b w f u p = ground arith

  unbinding-Expired :
      (b : Bind) (w v : World A)
      → Revoked b.uid w v
      → v.binds ≡ w.binds
      → Expired b w (unbinding b v).1
  unbinding-Expired b w v r e =
      rw
        (returning-world A C R done (update_phase A b b unbound is_false "Expired" "TTL elapsed") v)
        (unfold update_phase in
          record {
            revoked = record { crbs = r.crbs; rbs = r.rbs };
            marked =
                ap
                  (λ s.
                    (A.patch_status b (with_phase A b unbound is_false "Expired" "TTL elapsed")
                      s).1)
                  e;
          })

  expire-Expired :
      (b : Bind) (w : World A) {q : Requeue}
      → is_unbound b.status.sv.status ≡ false
      → (expire A b w).0 ≡ ok q
      → Expired b w (expire A b w).1
  expire-Expired b w u h = elim (Result-cases (delete_owned A b.uid w).0) [
    | inl p ↦
        rw (expire-go b w u p)
          (unbinding-Expired b w _ (delete_owned-Revoked b.uid w p) (delete_owned-binds b.uid w))
    | inr (f, p) ↦ cc (h, expire-stop b w f u p)
  ]

  reconcile_live-expire :
      (now later : ℕ) (w : World A) (b : Bind) (ttl : ℕ)
      → A.parse_duration b.spec.ttl ≡ ok ttl
      → expiry_of A b ttl ≤ now
      → reconcile_live A now later b w ≡ expire A b w
  unfolding reconcile_live
  reconcile_live-expire now later w b ttl p h = ground arith

  -- A reconcile of a live bind whose expiry is not after the clock, and that is not marked unbound
  -- yet, returns no error only after it has deleted every binding with the bind's label, of both
  -- kinds and no other, and it has then sent one write to the bind, which marks it unbound.
  pub reconcile-Expired :
      (now later : ℕ) (namespace name : String) (w : World A) (b : Bind) (ttl : ℕ) {q : Requeue}
      → (A.get namespace name w.binds).0 ≡ ok b
      → IsLive A C R b
      → A.parse_duration b.spec.ttl ≡ ok ttl
      → expiry_of A b ttl ≤ now
      → is_unbound b.status.sv.status ≡ false
      → (reconcile A now later namespace name w).0 ≡ ok q
      → Expired b (after_get A C R namespace name w) (reconcile A now later namespace name w).1
  reconcile-Expired now later namespace name w b ttl g l p h u e =
      let same =
        reconcile-live A C R now later namespace name w b g l
        ∙ reconcile_live-expire now later (after_get A C R namespace name w) b ttl p h in
      rw same (expire-Expired b (after_get A C R namespace name w) u (rw same at e))

  -- Either the bindings are gone, or the write that lets the bind go has not been sent and there is
  -- an error.
  abbrev pub LetGo : Bind → Result Failure Requeue → World A → World A → Type 0
  LetGo b r w t = Revoked b.uid w t ⊎ ((t.binds ≡ w.binds) × ((f : Failure) × (r ≡ err f)))

  abbrev letting_go : Bind → Exec (World A) Failure Bind
  letting_go b = on_binds A (
      call A "removing finalizer"
        (A.update (record b { finalizers = without_finalizer b.finalizers })))

  reconcile_delete-go :
      (b : Bind) (w : World A)
      → has_finalizer b ≡ true
      → (delete_owned A b.uid w).0 ≡ ok tt
      → reconcile_delete A b w ≡ returning A done (letting_go b) (delete_owned A b.uid w).1
  unfolding reconcile_delete
  reconcile_delete-go b w g p = ground arith

  reconcile_delete-stop :
      (b : Bind) (w : World A) (f : Failure)
      → has_finalizer b ≡ true
      → (delete_owned A b.uid w).0 ≡ err f
      → reconcile_delete A b w ≡ (err f, (delete_owned A b.uid w).1)
  unfolding reconcile_delete
  reconcile_delete-stop b w f g p = ground arith

  reconcile_delete-LetGo :
      (b : Bind) (w : World A)
      → has_finalizer b ≡ true
      → LetGo b (reconcile_delete A b w).0 w (reconcile_delete A b w).1
  reconcile_delete-LetGo b w g = elim (Result-cases (delete_owned A b.uid w).0) [
    | inl p ↦
        let r = delete_owned-Revoked b.uid w p in
        inl (
          rw (reconcile_delete-go b w g p) (
            rw (returning-world A C R done (letting_go b)) (record { crbs = r.crbs; rbs = r.rbs })))
    | inr (f, p) ↦
        rw (reconcile_delete-stop b w f g p) (inr (delete_owned-binds b.uid w, (f, refl)))
  ]

  reconcile-delete :
      (now later : ℕ) (namespace name : String) (w : World A) (b : Bind) {d : ℕ}
      → (A.get namespace name w.binds).0 ≡ ok b
      → b.deletion ≡ some d
      → reconcile A now later namespace name w
        ≡ reconcile_delete A b (after_get A C R namespace name w)
  unfolding reconcile reconcile_read
  reconcile-delete now later namespace name w b g d = ground arith

  -- A reconcile of a bind that is being deleted and still has the finalizer sends the update that
  -- removes the finalizer only after every binding with the bind's label is deleted: if they are not
  -- all gone, nothing was written to the bind and the reconcile returns an error.
  pub reconcile_deleted :
      (now later : ℕ) (namespace name : String) (w : World A) (b : Bind) {d : ℕ}
      → (A.get namespace name w.binds).0 ≡ ok b
      → b.deletion ≡ some d
      → has_finalizer b ≡ true
      → LetGo b
          (reconcile A now later namespace name w).0
          (after_get A C R namespace name w)
          (reconcile A now later namespace name w).1
  reconcile_deleted now later namespace name w b g d f =
      rw (reconcile-delete now later namespace name w b g d)
        (reconcile_delete-LetGo b (after_get A C R namespace name w) f)
