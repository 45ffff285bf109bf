-- ===== src/Operator/Sync/Clearing.antt =====
-- The deleting loops of `syncBindings` and `deleteOwned`: what stays and what goes.
use kube_argus.Base.{String, ◌≡◌, refl, ◌⊎◌, inl, inr, Bool, true, false, ◌==◌}
use kube_argus.Base.{none, some, List, [], ◌∷◌, Result, ok, err, arith, eq_iff, Bool-cases}
use kube_argus.Base.{if◌then◌else◌, Option-cases, Result-cases, text_cases}
use kube_argus.Operator.Types.{Binding}
use kube_argus.Operator.Api.{
  ApiError, not_found, already_exists, other, Bindings, IsBindings, Listed,
}
use kube_argus.Operator.Sync.{Failure, Kind, is_not_found, pass, is_desired, prune, delete_all}

pass_missing-cases :
    (doing : String) (r : Result ApiError (Unit {0}))
    → pass is_not_found doing r ≡ ok tt
    → (r ≡ ok tt) ⊎ (r ≡ err not_found)
unfolding pass
pass_missing-cases doing (ok tt) h = inl refl
pass_missing-cases doing (err not_found) h = inr refl
pass_missing-cases doing (err already_exists) h = cc
pass_missing-cases doing (err (other e)) h = cc

module _ (B : Bindings) (kind : Kind) (L : IsBindings kind.key B) where
  -- From `s` to `t` the listed keys went but for those that are to stay, and nothing else did.
  pub record Cleared (stay : String → Bool) (bs : List Binding) (s t : B.State) : Type 0 where
    pub origin : (k : String) (c : Binding) → L.view t k ≡ some c → L.view s k ≡ some c
    pub kept :
        (k : String) (c : Binding)
        → L.view s k ≡ some c
        → (stay k ≡ true) ⊎ ¬ (Listed kind.key k bs)
        → L.view t k ≡ some c
    pub gone : (k : String) → stay k ≡ false → Listed kind.key k bs → L.view t k ≡ none

  -- One delete that the loop does not stop at frees its key, and no other.
  delete_view :
      (b : Binding) (s : B.State) (doing : String)
      → pass is_not_found doing (B.delete b s).0 ≡ ok tt
      → (k : String) → L.view (B.delete b s).1 k ≡ (if kind.key b == k then none else L.view s k)
  delete_view b s doing passed k = elim (pass_missing-cases doing (B.delete b s).0 passed) [
    | inl e ↦ L.delete_ok b s e k
    | inr e ↦
        ground
          (arith, (L.delete_missing b s e).0, (L.delete_missing b s e).1 k, eq_iff (kind.key b) k)
  ]

  Cleared-nil : (stay : String → Bool) (s : B.State) → Cleared stay [] s s
  Cleared-nil stay s = record {
    origin = λ k c v. v;
    kept = λ k c v _. v;
    gone = λ k _ l. elim l [ ];
  }

  Cleared-skip :
      (stay : String → Bool) (b : Binding) (bs : List Binding) (s t : B.State)
      → stay (kind.key b) ≡ true
      → Cleared stay bs s t
      → Cleared stay (b ∷ bs) s t
  Cleared-skip stay b bs s t e c = record {
    origin = c.origin;
    kept = λ k d v why. c.kept k d v (elim why [ inl y ↦ inl y | inr n ↦ inr (λ l. n (inr l)) ]);
    gone = λ k n l. elim l [ inl q ↦ cc (n, e, q) | inr l' ↦ c.gone k n l' ];
  }

  module _ (stay : String → Bool) (b : Binding) (bs : List Binding) (s t : B.State) (doing : String)
      (passed : pass is_not_found doing (B.delete b s).0 ≡ ok tt)
      (c : Cleared stay bs (B.delete b s).1 t) where
    go_origin : (k : String) (d : Binding) → L.view t k ≡ some d → L.view s k ≡ some d
    go_origin k d v = ground (arith, c.origin k d v, delete_view b s doing passed k)

    go_kept :
        (k : String) (d : Binding)
        → stay (kind.key b) ≡ false
        → L.view s k ≡ some d
        → (stay k ≡ true) ⊎ ¬ (Listed kind.key k (b ∷ bs))
        → L.view t k ≡ some d
    go_kept k d e v (inl y) =
        c.kept k d (ground (arith, e, y, eq_iff (kind.key b) k, delete_view b s doing passed k))
          (inl y)
    go_kept k d e v (inr n) = elim (text_cases (kind.key b) k) [
      | inl (_, p) ↦ absurd (n (inl p))
      | inr (f, _) ↦ c.kept k d (rw (delete_view b s doing passed k, f) v) (inr (λ l. n (inr l)))
    ]

    go_gone : (k : String) → stay k ≡ false → Listed kind.key k (b ∷ bs) → L.view t k ≡ none
    go_gone k n (inl q) = elim (Option-cases (L.view t k)) [
      | inl z ↦ z
      | inr (d, v) ↦
          ground (arith, c.origin k d v, delete_view b s doing passed k, eq_iff (kind.key b) k)
    ]
    go_gone k n (inr l) = c.gone k n l

    Cleared-go : stay (kind.key b) ≡ false → Cleared stay (b ∷ bs) s t
    Cleared-go e = record {
      origin = go_origin;
      kept = λ k d v why. go_kept k d e v why;
      gone = go_gone;
    }

  prune-skip :
      (desired : List String) (b : Binding) (bs : List Binding) (s : B.State)
      → is_desired desired (kind.key b) ≡ true
      → prune B kind desired (b ∷ bs) s ≡ prune B kind desired bs s
  unfolding prune
  prune-skip desired b bs s e = ground arith

  prune-go :
      (desired : List String) (b : Binding) (bs : List Binding) (s : B.State)
      → is_desired desired (kind.key b) ≡ false
      → pass is_not_found kind.pruning (B.delete b s).0 ≡ ok tt
      → prune B kind desired (b ∷ bs) s ≡ prune B kind desired bs (B.delete b s).1
  unfolding prune
  prune-go desired b bs s e p = ground arith

  prune-stop :
      (desired : List String) (b : Binding) (bs : List Binding) (s : B.State) (f : Failure)
      → is_desired desired (kind.key b) ≡ false
      → pass is_not_found kind.pruning (B.delete b s).0 ≡ err f
      → prune B kind desired (b ∷ bs) s ≡ (err f, (B.delete b s).1)
  unfolding prune
  prune-stop desired b bs s f e p = ground arith

  pub prune-Cleared :
      (desired : List String) (bs : List Binding) (s : B.State)
      → (prune B kind desired bs s).0 ≡ ok tt
      → Cleared (is_desired desired) bs s (prune B kind desired bs s).1
  prune-Cleared desired [] s h = unfold prune in Cleared-nil (is_desired desired) s
  prune-Cleared desired (b ∷ bs) s h = elim (Bool-cases (is_desired desired (kind.key b))) [
    | inl e ↦ rw (prune-skip desired b bs s e) (
        Cleared-skip (is_desired desired) b bs s _ e
          (prune-Cleared desired bs s (rw (prune-skip desired b bs s e) at h)))
    | inr e ↦ elim (Result-cases (pass is_not_found kind.pruning (B.delete b s).0)) [
      | inl p ↦ rw (prune-go desired b bs s e p) (
          Cleared-go (is_desired desired) b bs s _ kind.pruning p
            (prune-Cleared desired bs (B.delete b s).1 (rw (prune-go desired b bs s e p) at h)) e)
      | inr (f, p) ↦ cc (h, prune-stop desired b bs s f e p)
    ]
  ]

  delete_all-go :
      (b : Binding) (bs : List Binding) (s : B.State)
      → pass is_not_found kind.deleting (B.delete b s).0 ≡ ok tt
      → delete_all B kind (b ∷ bs) s ≡ delete_all B kind bs (B.delete b s).1
  unfolding delete_all
  delete_all-go b bs s p = ground arith

  delete_all-stop :
      (b : Binding) (bs : List Binding) (s : B.State) (f : Failure)
      → pass is_not_found kind.deleting (B.delete b s).0 ≡ err f
      → delete_all B kind (b ∷ bs) s ≡ (err f, (B.delete b s).1)
  unfolding delete_all
  delete_all-stop b bs s f p = ground arith

  pub delete_all-Cleared :
      (bs : List Binding) (s : B.State)
      → (delete_all B kind bs s).0 ≡ ok tt
      → Cleared (λ _. false) bs s (delete_all B kind bs s).1
  delete_all-Cleared [] s h = unfold delete_all in Cleared-nil (λ _. false) s
  delete_all-Cleared (b ∷ bs) s h =
      elim (Result-cases (pass is_not_found kind.deleting (B.delete b s).0)) [
        | inl p ↦ rw (delete_all-go b bs s p) (
            Cleared-go (λ _. false) b bs s _ kind.deleting p
              (delete_all-Cleared bs (B.delete b s).1 (rw (delete_all-go b bs s p) at h)) refl)
        | inr (f, p) ↦ cc (h, delete_all-stop b bs s f p)
      ]
