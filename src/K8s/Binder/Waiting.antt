-- ===== src/K8s/Binder/Waiting.antt =====
-- When `WaitBinded` of service/internal/k8s/bind.go returns without an error.
use kube_argus.Base.{
  ℕ, zero, suc, ◌≤◌, ◌<◌, ◌≡◌, ◌≢◌, ◌↔◌, refl, sym, ap, ◌∙◌, ◌⊎◌, inl, inr, String, Result, ok, err,
  arith,
}
use kube_argus.Operator.Types.{Bind, BindPhase, binded, failed, unset, pending, binding, unbound}
use kube_argus.K8s.Binder.{
  Cluster, Binder, Look, settled, again, of_phase, look, deadline, wait_binded,
}

Look-cases : (l : Look) → ((x : Result String (Unit {0})) × (l ≡ settled x)) ⊎ (l ≡ again)
Look-cases (settled x) = inl (x, refl)
Look-cases again = inr refl

-- The custom resource was read, in the phase `binded`.
abbrev pub IsBinded : Result String Bind → Type 0
IsBinded r = (cr : Bind) × (r ≡ ok cr) × (cr.status.sv.status ≡ binded)

-- The custom resource was read, in a phase that is neither `binded` nor `failed`.
abbrev pub IsWaiting : Result String Bind → Type 0
IsWaiting r =
    (cr : Bind) × (r ≡ ok cr) × (cr.status.sv.status ≢ binded) × (cr.status.sv.status ≢ failed)

phase_waiting :
    (name : String) (p : BindPhase) → of_phase name p ≡ again → (p ≢ binded) × (p ≢ failed)
phase_waiting name binded h = ground arith
phase_waiting name failed h = ground arith
phase_waiting name unset h = (ground arith, ground arith)
phase_waiting name pending h = (ground arith, ground arith)
phase_waiting name binding h = (ground arith, ground arith)
phase_waiting name unbound h = (ground arith, ground arith)

waiting_phase : (name : String) (p : BindPhase) → p ≢ binded → p ≢ failed → of_phase name p ≡ again
waiting_phase name binded nb nf = absurd (nb refl)
waiting_phase name failed nb nf = absurd (nf refl)
waiting_phase name unset nb nf = refl
waiting_phase name pending nb nf = refl
waiting_phase name binding nb nf = refl
waiting_phase name unbound nb nf = refl

again-IsWaiting : (name : String) (r : Result String Bind) → look name r ≡ again → IsWaiting r
unfolding look
again-IsWaiting name (err e) h = ground arith
again-IsWaiting name (ok cr) h =
    let (nb, nf) = phase_waiting name cr.status.sv.status h in (cr, refl, nb, nf)

IsWaiting-again : (name : String) (r : Result String Bind) → IsWaiting r → look name r ≡ again
unfolding look
IsWaiting-again name r (cr, p, nb, nf) = rw p (waiting_phase name cr.status.sv.status nb nf)

module _ (C : Cluster) (b : Binder) (name : String) where
  -- The answer of the pass with this number, counted from 0, if the loop gets that far.
  abbrev pub answer : ℕ → C.State → Result String Bind
  answer zero s = (C.get b.namespace name s).0
  answer (suc k) s = answer k (C.pause (C.get b.namespace name s).1)

  -- Some pass reads the phase `binded`, and those before it read another one that is not `failed`.
  pub record BoundBy (ticks : ℕ) (s : C.State) : Type 0 where
    pub pass : ℕ
    pub in_time : pass ≤ ticks
    pub bound : IsBinded (answer pass s)
    pub before : (k : ℕ) → k < pass → IsWaiting (answer k s)

  next : C.State → C.State
  next s = C.pause (C.get b.namespace name s).1

  wait-settled :
      (ticks : ℕ) (s : C.State) (x : Result String (Unit {0}))
      → look name (answer zero s) ≡ settled x
      → (wait_binded C b name ticks s).0 ≡ x
  unfolding wait_binded
  wait-settled zero s x h = ground arith
  wait-settled (suc ticks) s x h = ground arith

  wait-late :
      (s : C.State)
      → look name (answer zero s) ≡ again
      → (wait_binded C b name zero s).0 ≡ err (deadline C name)
  unfolding wait_binded
  wait-late s h = ground arith

  wait-again :
      (ticks : ℕ) (s : C.State)
      → look name (answer zero s) ≡ again
      → (wait_binded C b name (suc ticks) s).0 ≡ (wait_binded C b name ticks (next s)).0
  unfolding wait_binded next
  wait-again ticks s h = ground arith

  phase_binded : (p : BindPhase) → of_phase name p ≡ settled (ok tt) → p ≡ binded
  phase_binded binded h = refl
  phase_binded failed h = ground arith
  phase_binded unset h = ground arith
  phase_binded pending h = ground arith
  phase_binded binding h = ground arith
  phase_binded unbound h = ground arith

  bound-IsBinded : (r : Result String Bind) → look name r ≡ settled (ok tt) → IsBinded r
  unfolding look
  bound-IsBinded (err e) h = ground arith
  bound-IsBinded (ok cr) h = (cr, refl, phase_binded cr.status.sv.status h)

  IsBinded-bound : (r : Result String Bind) → IsBinded r → look name r ≡ settled (ok tt)
  unfolding look
  IsBinded-bound r (cr, p, q) = rw p (rw (q, of_phase) refl)

  before_later :
      (s : C.State)
      → look name (answer zero s) ≡ again
      → (pass : ℕ) → ((k : ℕ) → k < pass → IsWaiting (answer k (next s)))
      → (k : ℕ) → k < suc pass
      → IsWaiting (answer k s)
  unfolding next
  before_later s h pass f zero l = again-IsWaiting name (answer zero s) h
  before_later s h pass f (suc k) l = f k (omega (arith, l))

  later-BoundBy :
      (ticks : ℕ) (s : C.State)
      → look name (answer zero s) ≡ again
      → BoundBy ticks (next s)
      → BoundBy (suc ticks) s
  unfolding next
  later-BoundBy ticks s h d = record {
    pass = suc d.pass;
    in_time = omega (arith, d.in_time);
    bound = d.bound;
    before = λ k l. before_later s h d.pass d.before k l;
  }

  first-BoundBy :
      (ticks : ℕ) (s : C.State) (x : Result String (Unit {0}))
      → look name (answer zero s) ≡ settled x
      → (wait_binded C b name ticks s).0 ≡ ok tt
      → BoundBy ticks s
  first-BoundBy ticks s x e h = record {
    pass = zero;
    in_time = omega arith;
    bound = bound-IsBinded (answer zero s) (e ∙ ap settled (sym (wait-settled ticks s x e) ∙ h));
    before = λ k l. ground arith;
  }

  wait-BoundBy :
      (ticks : ℕ) (s : C.State) → (wait_binded C b name ticks s).0 ≡ ok tt → BoundBy ticks s
  wait-BoundBy zero s h = elim (Look-cases (look name (answer zero s))) [
    | inl (x, e) ↦ first-BoundBy zero s x e h
    | inr e ↦ let h' = rw (wait-late s e) at h in ground arith
  ]
  wait-BoundBy (suc ticks) s h = elim (Look-cases (look name (answer zero s))) [
    | inl (x, e) ↦ first-BoundBy (suc ticks) s x e h
    | inr e ↦ later-BoundBy ticks s e (wait-BoundBy ticks (next s) (sym (wait-again ticks s e) ∙ h))
  ]

  seen :
      (ticks : ℕ) (s : C.State) (pass : ℕ)
      → pass ≤ ticks
      → IsBinded (answer pass s)
      → ((k : ℕ) → k < pass → IsWaiting (answer k s))
      → (wait_binded C b name ticks s).0 ≡ ok tt
  unfolding next
  seen ticks s zero l d f = wait-settled ticks s (ok tt) (IsBinded-bound (answer zero s) d)
  seen zero s (suc pass) l d f = ground arith
  seen (suc ticks) s (suc pass) l d f =
      wait-again ticks s (IsWaiting-again name (answer zero s) (f zero (omega arith)))
      ∙ seen ticks (next s) pass (omega (arith, l)) d (λ k m. f (suc k) (omega (arith, m)))

  BoundBy-wait :
      (ticks : ℕ) (s : C.State) → BoundBy ticks s → (wait_binded C b name ticks s).0 ≡ ok tt
  BoundBy-wait ticks s d = seen ticks s d.pass d.in_time d.bound d.before

  -- `WaitBinded` returns without an error exactly if one of its Gets reads the phase `binded`, in a
  -- pass that comes before the context is done, and the Gets before it read the resource in a phase
  -- that is neither `binded` nor `failed`.
  pub wait_binded_iff :
      (ticks : ℕ) (s : C.State) → ((wait_binded C b name ticks s).0 ≡ ok tt) ↔ BoundBy ticks s
  wait_binded_iff ticks s = (wait-BoundBy ticks s, BoundBy-wait ticks s)
