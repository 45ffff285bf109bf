-- ===== src/Tests/Etcd.antt =====
-- Bindings in a list, newest first, as the API server keeps them. A list call of a server that is
-- down times out.
pub mod Laws
use mathlib.Core.Path.{subst}
use kube_argus.Base.{
  ◌≡◌, ◌≢◌, refl, sym, ap, ◌∙◌, inl, inr, String, ◌==◌, Bool, true, false, Option, none, some, List,
  [], ◌∷◌, ok, err, Exec, arith, if◌then◌else◌, All, Option-cases, Bool-cases, text_cases, eq_iff,
  eq_refl,
}
use kube_argus.Base.Dict.{lookup}
use kube_argus.Operator.Types.{Binding, owner_label}
use kube_argus.Operator.Api.{
  ApiError, not_found, already_exists, other, Bindings, IsBindings, IsOwned, Listed,
}

module _ (key : Binding → String) where
  unfoldable pub find : String → List Binding → Option Binding
  find k [] = none
  find k (b ∷ bs) = let rest = find k bs in if key b == k then some b else rest

  unfoldable pub drop_key : String → List Binding → List Binding
  drop_key k [] = []
  drop_key k (b ∷ bs) = let rest = drop_key k bs in if key b == k then rest else b ∷ rest

  unfoldable pub owned_by : String → Binding → Bool
  owned_by uid b = elim (lookup owner_label b.labels) [ none ↦ false | some u ↦ u == uid ]

  -- The bindings with the label, of the keys of a list.
  unfoldable pub collect : String → List Binding → List Binding → List Binding
  collect uid s [] = []
  collect uid s (x ∷ xs) =
      let rest = collect uid s xs in
      elim (find (key x) s) [ none ↦ rest | some b ↦ if owned_by uid b then b ∷ rest else rest ]

  unfoldable pub list : Bool → String → Exec (List Binding) ApiError (List Binding)
  list up uid s = (if up then ok (collect uid s s) else err (other "timeout"), s)

  unfoldable pub create : Binding → Exec (List Binding) ApiError (Unit {0})
  create b s = elim (find (key b) s) [ none ↦ (ok tt, b ∷ s) | some _ ↦ (err already_exists, s) ]

  unfoldable pub delete : Binding → Exec (List Binding) ApiError (Unit {0})
  delete b s = elim (find (key b) s) [
    | none ↦ (err not_found, s)
    | some _ ↦ (ok tt, drop_key (key b) s)
  ]

  abbrev pub etcd : Bool → Bindings
  etcd up = record { State = List Binding; list = list up; create = create; delete = delete }
