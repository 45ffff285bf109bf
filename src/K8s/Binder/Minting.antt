-- ===== src/K8s/Binder/Minting.antt =====
-- `Mint` of service/internal/k8s/token.go, by the token that the API server creates.
use kube_argus.Base.{ℕ, ◌≡◌, inl, inr, String, List, ok, arith, Outcome-cases}
use kube_argus.Model.{Token}
use kube_argus.K8s.Binder.{Cluster, mint}

module _ (C : Cluster) (namespace : String) (audiences : List String) (life : ℕ) (name : String)
    (s : C.State) where
  pub mint-token :
      (t : Token)
      → (mint C namespace audiences life name s).0 ≡ ok t
      → (C.create_token namespace name audiences life s).0 ≡ ok t.access_token
  unfolding mint
  mint-token t h = elim (Outcome-cases (C.create_token namespace name audiences life s).0) [
    | inl (x, e) ↦ ground arith
    | inr (m, e) ↦ ground arith
  ]

  pub mint-state :
      (mint C namespace audiences life name s).1
      ≡ (C.create_token namespace name audiences life s).1
  unfolding mint
  mint-state = elim (Outcome-cases (C.create_token namespace name audiences life s).0) [
    | inl (x, e) ↦ ground arith
    | inr (m, e) ↦ ground arith
  ]
