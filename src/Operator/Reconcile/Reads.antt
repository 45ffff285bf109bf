-- ===== src/Operator/Reconcile/Reads.antt =====
-- How `Reconcile` of operator/internal/controller/userauthenticationbind_controller.go begins: it reads
-- the bind, and a live one goes on to the test of its expiry.
use kube_argus.Base.{ℕ, ◌≡◌, refl, ◌∙◌, String, true, false, none}
use kube_argus.Base.{Result, ok, err, arith, Exec, continue}
use kube_argus.Operator.Types.{Bind}
use kube_argus.Operator.Api.{Api, World, IsBindings}
use kube_argus.Operator.Sync.{Failure, cluster_kind, namespaced_kind}
use kube_argus.Operator.Steps.{Requeue, is_unset, has_finalizer, returning}
use kube_argus.Operator.Reconcile.{reconcile_live, reconcile_read, reconcile}

module _ (A : Api) (C : IsBindings cluster_kind.key A.cluster_role_bindings)
    (R : IsBindings namespaced_kind.key A.role_bindings) where
  continue-done :
      {X : Type 0} (q : Requeue) (r : Result Failure X) (t : World A)
      → (continue {B = Requeue} r (λ _ v. (ok q, v)) t).1 ≡ t
  continue-done q (ok x) t = refl
  continue-done q (err f) t = refl

  pub returning-world :
      {X : Type 0} (q : Requeue) (m : Exec (World A) Failure X) (w : World A)
      → (returning A q m w).1 ≡ (m w).1
  returning-world q m w = continue-done q (m w).0 (m w).1

  pub continue-binds :
      {X Y : Type 0} (f : X → Exec (World A) Failure Y) (r : Result Failure X) (t : World A)
      → ((x : X) (v : World A) → (f x v).1.binds ≡ v.binds)
      → (continue r f t).1.binds ≡ t.binds
  continue-binds f (ok x) t h = h x t
  continue-binds f (err e) t h = refl

  abbrev pub after_get : String → String → World A → World A
  after_get namespace name w = record w { binds = (A.get namespace name w.binds).1 }

  -- The bind is not being deleted, has the finalizer, and has been seen before.
  pub record IsLive (b : Bind) : Type 0 where
    pub kept : b.deletion ≡ none
    pub guarded : has_finalizer b ≡ true
    pub seen : is_unset b.status.sv.status ≡ false

  pub reconcile-read :
      (now later : ℕ) (namespace name : String) (w : World A) (b : Bind)
      → (A.get namespace name w.binds).0 ≡ ok b
      → reconcile A now later namespace name w
        ≡ reconcile_read A now later b (after_get namespace name w)
  unfolding reconcile
  reconcile-read now later namespace name w b g = ground arith

  reconcile_read-live :
      (now later : ℕ) (w : World A) (b : Bind)
      → IsLive b
      → reconcile_read A now later b w ≡ reconcile_live A now later b w
  unfolding reconcile_read
  reconcile_read-live now later w b l = ground (arith, l.kept, l.guarded, l.seen)

  pub reconcile-live :
      (now later : ℕ) (namespace name : String) (w : World A) (b : Bind)
      → (A.get namespace name w.binds).0 ≡ ok b
      → IsLive b
      → reconcile A now later namespace name w
        ≡ reconcile_live A now later b (after_get namespace name w)
  reconcile-live now later namespace name w b g l =
      reconcile-read now later namespace name w b g
      ∙ reconcile_read-live now later (after_get namespace name w) b l
