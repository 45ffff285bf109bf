-- ===== src/Operator/Api.antt =====
-- What the controller calls of the API server through its client, for the two kinds of binding: an
-- interface, and the documented behaviour that the proofs rely on.
use kube_argus.Base.{ℕ, Result, String, ◌≡◌, ◌≢◌, ◌==◌, ◌⊎◌, Option, none, some, List, [], ◌∷◌}
use kube_argus.Base.{ok, err, Exec, if◌then◌else◌, All}
use kube_argus.Base.Dict.{lookup}
use kube_argus.Operator.Types.{Bind, ServiceAccount, Condition, Role, Binding, owner_label}

-- What a call of the client may answer.
pub data ApiError : Type 0 where
  not_found : ApiError
  already_exists : ApiError
  other : String → ApiError

-- `List` is by the label `kargus.io/owned-by`.
pub record Bindings : Type 1 where
  pub State : Type 0
  pub list : String → Exec State ApiError (List Binding)
  pub create : Binding → Exec State ApiError (Unit {0})
  pub delete : Binding → Exec State ApiError (Unit {0})

-- The binding carries the label of this custom resource.
abbrev pub IsOwned : String → Binding → Type 0
IsOwned uid b = lookup owner_label b.labels ≡ some uid

-- Some element of the list has the key.
abbrev pub Listed : (Binding → String) → String → List Binding → Type 0
Listed key k [] = ⊥
Listed key k (b ∷ bs) = (key b ≡ k) ⊎ Listed key k bs

-- `key` is the text that stands for the name and the namespace of an object. A list gives the stored
-- objects with the label, and all of them. A create stores an object under a free key, or says that
-- the key is taken. A delete frees the key, or says that it is free. Of a call that ends in another
-- error nothing is asked.
pub record IsBindings (key : Binding → String) (B : Bindings) : Type 1 where
  pub view : B.State → String → Option Binding
  pub view_key : (s : B.State) (k : String) (b : Binding) → view s k ≡ some b → key b ≡ k
  pub list_same :
      (uid : String) (s : B.State) (xs : List Binding)
      → (B.list uid s).0 ≡ ok xs
      → (k : String) → view (B.list uid s).1 k ≡ view s k
  pub list_owned :
      (uid : String) (s : B.State) (xs : List Binding)
      → (B.list uid s).0 ≡ ok xs
      → All (λ b. (view s (key b) ≡ some b) × IsOwned uid b) xs
  pub list_all :
      (uid : String) (s : B.State) (xs : List Binding)
      → (B.list uid s).0 ≡ ok xs
      → (k : String) (b : Binding) → view s k ≡ some b
      → IsOwned uid b
      → Listed key k xs
  pub create_ok :
      (b : Binding) (s : B.State)
      → (B.create b s).0 ≡ ok tt
      → (view s (key b) ≡ none)
        × ((k : String) → view (B.create b s).1 k ≡ (if key b == k then some b else view s k))
  pub create_taken :
      (b : Binding) (s : B.State)
      → (B.create b s).0 ≡ err already_exists
      → (view s (key b) ≢ none) × ((k : String) → view (B.create b s).1 k ≡ view s k)
  pub delete_ok :
      (b : Binding) (s : B.State)
      → (B.delete b s).0 ≡ ok tt
      → (k : String) → view (B.delete b s).1 k ≡ (if key b == k then none else view s k)
  pub delete_missing :
      (b : Binding) (s : B.State)
      → (B.delete b s).0 ≡ err not_found
      → (view s (key b) ≡ none) × ((k : String) → view (B.delete b s).1 k ≡ view s k)

-- The rest of what the controller calls. `parse_duration` and `parse_rfc3339` are the time package's;
-- a duration is a number of nanoseconds, which the pattern of the schema keeps positive.
pub record Api : Type 1 where
  pub Binds : Type 0
  pub get : String → String → Exec Binds ApiError Bind
  pub update : Bind → Exec Binds ApiError Bind
  -- `Status().Patch` by a merge patch: the object as it was read, and as it is to be.
  pub patch_status : Bind → Bind → Exec Binds ApiError Bind
  pub Accounts : Type 0
  pub create_or_update :
      ServiceAccount
      → (ServiceAccount → Result ApiError ServiceAccount)
      → Exec Accounts ApiError ServiceAccount
  pub set_controller_reference : Bind → ServiceAccount → Result ApiError ServiceAccount
  pub ClusterRoles : Type 0
  pub list_cluster_roles : Exec ClusterRoles ApiError (List Role)
  pub Roles : Type 0
  pub list_roles : Exec Roles ApiError (List Role)
  pub cluster_role_bindings : Bindings
  pub role_bindings : Bindings
  pub set_status_condition : List Condition → Condition → List Condition
  pub parse_duration : String → Result String ℕ
  pub parse_rfc3339 : String → Option ℕ
  -- `err.Error()`, of the text before the colon and the cause.
  pub error_text : String → ApiError → String

-- The state of the API server, a part for each kind of object.
pub record World (A : Api) : Type 0 where
  pub binds : A.Binds
  pub accounts : A.Accounts
  pub cluster_roles : A.ClusterRoles
  pub roles : A.Roles
  pub crbs : A.cluster_role_bindings.State
  pub rbs : A.role_bindings.State
