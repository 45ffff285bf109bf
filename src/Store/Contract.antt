-- ===== src/Store/Contract.antt =====
-- The `Store` interface of store.go, and what its users rely on: a save is read back until it
-- expires, a take removes what it reads, and no operation touches another key or another kind.
use kube_argus.Base.{ℕ, ◌+◌, ◌≡◌, String, ◌==◌, Option, none, some, Result, ok, err, Exec, ◌⊎◌}
use kube_argus.Base.{if◌then◌else◌}
use kube_argus.Store.Types.{AuthRequest, CodeGrant, RefreshGrant, StoreError, backend, Entry, fetch}

-- A method takes the time of its call first. `ttl` is a number of nanoseconds.
pub record Store : Type 1 where
  pub State : Type 0
  pub save_auth_request : ℕ → String → AuthRequest → ℕ → Exec State StoreError (Unit {0})
  pub take_auth_request : ℕ → String → Exec State StoreError AuthRequest
  pub save_code : ℕ → String → CodeGrant → ℕ → Exec State StoreError (Unit {0})
  pub take_code : ℕ → String → Exec State StoreError CodeGrant
  pub save_refresh : ℕ → String → RefreshGrant → ℕ → Exec State StoreError (Unit {0})
  pub take_refresh : ℕ → String → Exec State StoreError RefreshGrant

-- What is stored, whatever the representation.
pub record View : Type 0 where
  pub auth : String → Option (Entry AuthRequest)
  pub codes : String → Option (Entry CodeGrant)
  pub refresh : String → Option (Entry RefreshGrant)

abbrev pub update : {V : Type 0} → String → Option V → (String → Option V) → String → Option V
update k v f j = if k == j then v else f j

abbrev pub entry : {V : Type 0} → V → ℕ → Option (Entry V)
entry v exp = some (record { val = v; exp = exp })

-- After a successful save the view has the new entry and is else as it was. A take that finds a
-- value, or says that there is none, is right about it and has removed the key. Of a take or a
-- save that ends in another error nothing is asked.
-- The times to live are those that the store keeps.
pub record IsStoreFor (Kept : ℕ → Type 0) (S : Store) : Type 1 where
  pub view : S.State → View
  pub save_auth_request_law :
      (now : ℕ) (k : String) (v : AuthRequest) (ttl : ℕ) (s : S.State)
      → Kept ttl
      → (S.save_auth_request now k v ttl s).0 ≡ ok tt
      → view (S.save_auth_request now k v ttl s).1
        ≡ record (view s) { auth = update k (entry v (now + ttl)) (view s).auth }
  pub save_code_law :
      (now : ℕ) (k : String) (v : CodeGrant) (ttl : ℕ) (s : S.State)
      → Kept ttl
      → (S.save_code now k v ttl s).0 ≡ ok tt
      → view (S.save_code now k v ttl s).1
        ≡ record (view s) { codes = update k (entry v (now + ttl)) (view s).codes }
  pub save_refresh_law :
      (now : ℕ) (k : String) (v : RefreshGrant) (ttl : ℕ) (s : S.State)
      → Kept ttl
      → (S.save_refresh now k v ttl s).0 ≡ ok tt
      → view (S.save_refresh now k v ttl s).1
        ≡ record (view s) { refresh = update k (entry v (now + ttl)) (view s).refresh }
  pub take_auth_request_law :
      (now : ℕ) (k : String) (s : S.State) (v : AuthRequest)
      → (S.take_auth_request now k s).0 ≡ ok v
      → (fetch now ((view s).auth k) ≡ ok v)
        × (view (S.take_auth_request now k s).1
            ≡ record (view s) { auth = update k none (view s).auth })
  pub take_code_law :
      (now : ℕ) (k : String) (s : S.State) (v : CodeGrant)
      → (S.take_code now k s).0 ≡ ok v
      → (fetch now ((view s).codes k) ≡ ok v)
        × (view (S.take_code now k s).1 ≡ record (view s) { codes = update k none (view s).codes })
  pub take_refresh_law :
      (now : ℕ) (k : String) (s : S.State) (v : RefreshGrant)
      → (S.take_refresh now k s).0 ≡ ok v
      → (fetch now ((view s).refresh k) ≡ ok v)
        × (view (S.take_refresh now k s).1
            ≡ record (view s) { refresh = update k none (view s).refresh })
  pub absent_code_law :
      (now : ℕ) (k : String) (s : S.State)
      → (view s).codes k ≡ none
      → (v : CodeGrant) → (S.take_code now k s).0 ≡ ok v
      → ⊥
  pub absent_refresh_law :
      (now : ℕ) (k : String) (s : S.State)
      → (view s).refresh k ≡ none
      → (v : RefreshGrant) → (S.take_refresh now k s).0 ≡ ok v
      → ⊥

-- A store that keeps every time to live.
abbrev pub IsStore : Store → Type 1
IsStore S = IsStoreFor (λ _. Unit {0}) S

-- A take answers by what is stored and the time, or the backend has failed.
abbrev pub IsAnswer : {V : Type 0} → Result StoreError V → Result StoreError V → Type 0
IsAnswer r f = (r ≡ f) ⊎ ((e : String) × (r ≡ err (backend e)))

pub record Answers (S : Store) (view : S.State → View) : Type 0 where
  pub auth_answer :
      (now : ℕ) (k : String) (s : S.State)
      → IsAnswer (S.take_auth_request now k s).0 (fetch now ((view s).auth k))
  pub code_answer :
      (now : ℕ) (k : String) (s : S.State)
      → IsAnswer (S.take_code now k s).0 (fetch now ((view s).codes k))
  pub refresh_answer :
      (now : ℕ) (k : String) (s : S.State)
      → IsAnswer (S.take_refresh now k s).0 (fetch now ((view s).refresh k))

-- No call fails: a save is always stored, and a take answers by what is stored and the time, and always
-- leaves nothing under its key.
pub record NeverFails (S : Store) (view : S.State → View) : Type 0 where
  pub auth_saved :
      (now : ℕ) (k : String) (v : AuthRequest) (ttl : ℕ) (s : S.State)
      → (S.save_auth_request now k v ttl s).0 ≡ ok tt
  pub code_saved :
      (now : ℕ) (k : String) (v : CodeGrant) (ttl : ℕ) (s : S.State)
      → (S.save_code now k v ttl s).0 ≡ ok tt
  pub refresh_saved :
      (now : ℕ) (k : String) (v : RefreshGrant) (ttl : ℕ) (s : S.State)
      → (S.save_refresh now k v ttl s).0 ≡ ok tt
  pub auth_taken :
      (now : ℕ) (k : String) (s : S.State)
      → ((S.take_auth_request now k s).0 ≡ fetch now ((view s).auth k))
        × (view (S.take_auth_request now k s).1
            ≡ record (view s) { auth = update k none (view s).auth })
  pub code_taken :
      (now : ℕ) (k : String) (s : S.State)
      → ((S.take_code now k s).0 ≡ fetch now ((view s).codes k))
        × (view (S.take_code now k s).1 ≡ record (view s) { codes = update k none (view s).codes })
  pub refresh_taken :
      (now : ℕ) (k : String) (s : S.State)
      → ((S.take_refresh now k s).0 ≡ fetch now ((view s).refresh k))
        × (view (S.take_refresh now k s).1
            ≡ record (view s) { refresh = update k none (view s).refresh })
