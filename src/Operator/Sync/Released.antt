-- ===== src/Operator/Sync/Released.antt =====
-- What `deleteOwned` of operator/internal/controller/userauthenticationbind_controller.go leaves.
use mathlib.Core.Path.{subst}
use mathlib.Core.Option.{some-injective}
use kube_argus.Base.{String, ◌≡◌, refl, sym, inl, inr, false, ap, ◌∙◌}
use kube_argus.Base.{some, List, [], ◌∷◌, Result, ok, err, arith}
use kube_argus.Base.{All}
use kube_argus.Operator.Types.{Binding}
use kube_argus.Operator.Api.{ApiError, Bindings, IsBindings, IsOwned, Listed}
use kube_argus.Operator.Sync.{Kind, named, list_owned, delete_all, delete_kind}
use kube_argus.Operator.Sync.Clearing.{Cleared}

module _ (B : Bindings) (kind : Kind) (L : IsBindings kind.key B) where
  -- From `s` to `t` exactly the owned bindings went.
  pub record Released (cruid : String) (s t : B.State) : Type 0 where
    pub gone : (k : String) (c : Binding) → L.view t k ≡ some c → ¬ (IsOwned cruid c)
    pub foreign :
        (k : String) (c : Binding) → L.view s k ≡ some c → ¬ (IsOwned cruid c) → L.view t k ≡ some c
    pub origin : (k : String) (c : Binding) → L.view t k ≡ some c → L.view s k ≡ some c

  -- What a list gave is owned, so what stands under a listed key is owned.
  pub owned_of_listed :
      (cruid : String) (s : B.State) (k : String) (c : Binding) (xs : List Binding)
      → All (λ b. (L.view s (kind.key b) ≡ some b) × IsOwned cruid b) xs
      → Listed kind.key k xs
      → L.view s k ≡ some c
      → IsOwned cruid c
  owned_of_listed cruid s k c [] _ l w = elim l [ ]
  owned_of_listed cruid s k c (b ∷ xs) ((v, o), _) (inl q) w =
      let same : b ≡ c = some-injective b c (sym v ∙ ap (L.view s) q ∙ w) in
      subst (IsOwned cruid) same o
  owned_of_listed cruid s k c (b ∷ xs) (_, os) (inr l) w = owned_of_listed cruid s k c xs os l w

  -- `deleteOwned`: the list, then a delete for each.
  module _ (cruid : String) (s : B.State) where
    unfoldable pub owned : Result ApiError (List Binding) × B.State
    owned = B.list cruid s

    pub delete_kind-all :
        (xs : List Binding)
        → owned.0 ≡ ok xs
        → delete_kind B kind cruid s ≡ delete_all B kind xs owned.1
    unfolding owned delete_kind list_owned named
    delete_kind-all xs q = ground arith

    pub delete_kind-no_list :
        (e : ApiError)
        → owned.0 ≡ err e
        → (delete_kind B kind cruid s).0 ≡ err (record { doing = kind.listing; cause = e })
    unfolding owned delete_kind list_owned named
    delete_kind-no_list e q = ground arith

    pub Released-all :
        (xs : List Binding) (t : B.State)
        → owned.0 ≡ ok xs
        → Cleared B kind L (λ _. false) xs owned.1 t
        → Released cruid s t
    unfolding owned
    Released-all xs t q d = record {
      gone = λ k b v o.
          let was = sym (L.list_same cruid s xs q k) ∙ d.origin k b v in
          cc (v, d.gone k refl (L.list_all cruid s xs q k b was o));
      foreign = λ k b v foreign.
          d.kept k b (L.list_same cruid s xs q k ∙ v)
            (inr (λ l. foreign (owned_of_listed cruid s k b xs (L.list_owned cruid s xs q) l v)));
      origin = λ k b v. sym (L.list_same cruid s xs q k) ∙ d.origin k b v;
    }
