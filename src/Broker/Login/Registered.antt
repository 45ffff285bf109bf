-- ===== src/Broker/Login/Registered.antt =====
-- The clients and the redirect URIs that service/internal/broker/handlers.go knows.
use kube_argus.Base.{
  ◌≡◌, inl, inr, ◌⊎◌, String, ◌==◌, true, List, [], ◌∷◌, arith, some_of, text_cases,
}
use kube_argus.Config.{Config, redirect_allowed}
use kube_argus.Store.Contract.{Store}
use kube_argus.Broker.Types.{AuthorizeQuery, redirect_to, redirect_with}
use kube_argus.Broker.Env.{Env}
use kube_argus.Broker.Steps.{redirect_error}
use kube_argus.Broker.Login.{client_allowed}

-- The text is in the list.
abbrev pub Registered : String → List String → Type 0
Registered uri [] = ⊥
Registered uri (u ∷ us) = (u ≡ uri) ⊎ Registered uri us

Registered-some :
    (uri : String) (us : List String) → some_of (λ r. r == uri) us ≡ true → Registered uri us
unfolding some_of
Registered-some uri [] h = ground arith
Registered-some uri (u ∷ us) h = elim (text_cases u uri) [
  | inl (e, p) ↦ inl p
  | inr (e, n) ↦ inr (Registered-some uri us (rw e at h))
]

pub redirect_allowed-Registered :
    (c : Config) (uri : String) → redirect_allowed c uri ≡ true → Registered uri c.redirect_uris
unfolding redirect_allowed
redirect_allowed-Registered c uri h = Registered-some uri c.redirect_uris h

module _ (S : Store) (E : Env) (c : Config) where
  pub client_known :
      (q : AuthorizeQuery)
      → client_allowed S E c q ≡ true
      → (q.client_id ≡ c.client_id) × Registered q.redirect_uri c.redirect_uris
  unfolding client_allowed
  client_known q h = elim (text_cases q.client_id c.client_id) [
    | inl (e, p) ↦ (p, redirect_allowed-Registered c q.redirect_uri (rw e at h))
    | inr (e, n) ↦ ground arith
  ]

  pub redirect_error-uri :
      (uri state e desc u : String) (ps : List (String × String))
      → redirect_error E uri state e desc ≡ redirect_with u ps
      → u ≡ uri
  unfolding redirect_error
  redirect_error-uri uri state e desc u ps h = ground arith

  pub redirect_error-stays :
      (uri state e desc u : String) → redirect_error E uri state e desc ≡ redirect_to u → ⊥
  unfolding redirect_error
  redirect_error-stays uri state e desc u h = ground arith
