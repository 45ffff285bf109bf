-- ===== src/Operator/Reconcile/Stages.antt =====
-- The stages of a bind on its way to an end, by its finalizer and its phase, as `Reconcile` of
-- operator/internal/controller/userauthenticationbind_controller.go passes them.
use kube_argus.Base.{
  ℕ, ◌<◌, ◌≤◌, ◌≡◌, ◌≢◌, refl, ◌⊎◌, inl, inr, true, false, Bool, String, arith, Bool-cases, some_of,
  List, [], ◌∷◌, ◌++◌, ◌==◌, if◌then◌else◌,
}
use kube_argus.Operator.Types.{
  Bind, BindPhase, unset, pending, binding, binded, failed, unbound, finalizer,
}
use kube_argus.Operator.Steps.{is_unset, is_binded, has_finalizer, add_finalizer}

-- The reconciles that a bind in this phase, with or without the finalizer, is away from its end.
abbrev pub to_go : Bool → BindPhase → ℕ
to_go guarded binded = 0
to_go guarded failed = 0
to_go false unset = 3
to_go true unset = 2
to_go false _ = 2
to_go true _ = 1

pub some_of-added :
    (fs : List String) → some_of (λ f. f == finalizer) (fs ++ (finalizer ∷ [])) ≡ true
unfolding some_of
some_of-added [] = refl
some_of-added (f ∷ fs) = elim (Bool-cases (f == finalizer)) [
  | inl e ↦ rw (e, if◌then◌else◌) refl
  | inr e ↦ rw (e, if◌then◌else◌) (some_of-added fs)
]

pub has_finalizer-add : (b : Bind) → has_finalizer (add_finalizer b) ≡ true
unfolding has_finalizer
has_finalizer-add b = some_of-added b.finalizers

pub to_go-guard : (p : BindPhase) → p ≢ binded → p ≢ failed → to_go true p < to_go false p
to_go-guard unset nb nf = omega arith
to_go-guard pending nb nf = omega arith
to_go-guard binding nb nf = omega arith
to_go-guard unbound nb nf = omega arith
to_go-guard binded nb nf = absurd (nb refl)
to_go-guard failed nb nf = absurd (nf refl)

pub to_go-live : (p : BindPhase) → is_unset p ≡ false → p ≢ binded → p ≢ failed → to_go true p ≡ 1
to_go-live unset u nb nf = ground arith
to_go-live pending u nb nf = refl
to_go-live binding u nb nf = refl
to_go-live unbound u nb nf = refl
to_go-live binded u nb nf = absurd (nb refl)
to_go-live failed u nb nf = absurd (nf refl)

pub to_go-ended : (g : Bool) (p : BindPhase) → (p ≡ binded) ⊎ (p ≡ failed) → to_go g p ≡ 0
to_go-ended true p (inl e) = rw e refl
to_go-ended true p (inr e) = rw e refl
to_go-ended false p (inl e) = rw e refl
to_go-ended false p (inr e) = rw e refl

pub to_go-unset : (p : BindPhase) → is_unset p ≡ true → 1 < to_go true p
to_go-unset unset u = omega arith
to_go-unset pending u = ground arith
to_go-unset binding u = ground arith
to_go-unset unbound u = ground arith
to_go-unset binded u = ground arith
to_go-unset failed u = ground arith

pub unset-pending : (p : BindPhase) → is_unset p ≡ true → p ≢ pending
unset-pending p u e = cc (e, u)

pub not_binded : (p : BindPhase) → p ≢ binded → is_binded p ≡ false
not_binded unset n = refl
not_binded pending n = refl
not_binded binding n = refl
not_binded unbound n = refl
not_binded failed n = refl
not_binded binded n = absurd (n refl)

pub to_go-three : (g : Bool) (p : BindPhase) → to_go g p ≤ 3
to_go-three true unset = omega arith
to_go-three true pending = omega arith
to_go-three true binding = omega arith
to_go-three true binded = omega arith
to_go-three true unbound = omega arith
to_go-three true failed = omega arith
to_go-three false unset = omega arith
to_go-three false pending = omega arith
to_go-three false binding = omega arith
to_go-three false binded = omega arith
to_go-three false unbound = omega arith
to_go-three false failed = omega arith

pub to_go-none : (g : Bool) (p : BindPhase) → to_go g p ≡ 0 → (p ≡ binded) ⊎ (p ≡ failed)
to_go-none g binded e = inl refl
to_go-none g failed e = inr refl
to_go-none true unset e = ground arith
to_go-none true pending e = ground arith
to_go-none true binding e = ground arith
to_go-none true unbound e = ground arith
to_go-none false unset e = ground arith
to_go-none false pending e = ground arith
to_go-none false binding e = ground arith
to_go-none false unbound e = ground arith
