-- ===== src/Operator/Sync.antt =====
-- `syncBindings` and `deleteOwned` of
-- operator/internal/controller/userauthenticationbind_controller.go, for one kind of binding. The
-- code has the same text twice, for ClusterRoleBindings and for RoleBindings.
pub mod Creating
pub mod Clearing
pub mod Released
pub mod Synced
use kube_argus.Base.{String, ◌<>◌, Bool, true, false, ◌==◌, Option, none, some, List, [], ◌∷◌}
use kube_argus.Base.{Result, ok, err, Exec, if◌then◌else◌, some_of, continue}
use kube_argus.Base.Dict.{Dict, lookup}
use kube_argus.Operator.Types.{
  Membership, Role, Subject, RoleRef, Binding, group_annotation, owner_label, rbac_api_group,
  cluster_role_kind,
}
use kube_argus.Operator.Api.{ApiError, not_found, already_exists, other, Bindings}

-- An error of the controller: what it was doing, and the error of the call.
pub record Failure : Type 0 where
  pub doing : String
  pub cause : ApiError

-- In what the two halves differ: the kind of the role, the key of a binding in the desired set, and
-- the texts of the errors.
pub record Kind : Type 0 where
  pub role_kind : String
  pub key : Binding → String
  pub listing : String
  pub creating : Binding → String
  pub pruning : String
  pub deleting : String

abbrev pub cluster_kind : Kind
cluster_kind = record {
  role_kind = cluster_role_kind;
  key = λ b. b.name;
  listing = "listing owned ClusterRoleBindings";
  creating = λ b. "creating ClusterRoleBinding " <> b.name;
  pruning = "pruning ClusterRoleBinding";
  deleting = "deleting ClusterRoleBinding";
}

abbrev pub namespaced_kind : Kind
namespaced_kind = record {
  role_kind = "Role";
  key = λ b. b.namespace <> ("/" <> b.name);
  listing = "listing owned RoleBindings";
  creating = λ b. "creating RoleBinding " <> (b.namespace <> ("/" <> b.name));
  pruning = "pruning RoleBinding";
  deleting = "deleting RoleBinding";
}

-- The set `groups` of the code is the list of memberships, and `groups[g]` is this test.
unfoldable pub has_group : List Membership → String → Bool
unfolding some_of
has_group ms g = some_of (λ m. m.gid == g) ms

unfoldable pub group_matches : List Membership → Dict String → Bool
unfolding lookup has_group
group_matches groups annotations = elim (lookup group_annotation annotations) [
  | none ↦ false
  | some g ↦ has_group groups g
]

unfoldable pub binding_name : String → String → String
binding_name cruid role = "kargus-" <> (cruid <> ("-" <> role))

-- The binding that the loops build for a role; `kind` is `ClusterRole` or `Role`.
unfoldable pub make_binding : String → String → Subject → Role → Binding
unfolding binding_name
make_binding kind cruid subject role = record {
  name = binding_name cruid role.name;
  namespace = role.namespace;
  labels = (owner_label, cruid) ∷ [];
  role_ref = record { api_group = rbac_api_group; kind = kind; name = role.name };
  subjects = subject ∷ [];
}

abbrev pub is_already_exists : ApiError → Bool
is_already_exists already_exists = true
is_already_exists _ = false

abbrev pub is_not_found : ApiError → Bool
is_not_found not_found = true
is_not_found _ = false

-- `if err != nil && !passed(err) { return fmt.Errorf(doing, err) }`
unfoldable pub pass :
    (ApiError → Bool) → String → Result ApiError (Unit {0}) → Result Failure (Unit {0})
pass passed doing (ok u) = ok u
pass passed doing (err e) = if passed e then ok tt else err (record { doing = doing; cause = e })

-- `if err != nil { return fmt.Errorf(doing, err) }`
unfoldable pub named : {A : Type 0} → String → Result ApiError A → Result Failure A
named doing (ok a) = ok a
named doing (err e) = err (record { doing = doing; cause = e })

unfoldable pub is_desired : List String → String → Bool
unfolding some_of
is_desired desired k = some_of (λ d. d == k) desired

module _ (B : Bindings) (kind : Kind) where
  -- The first loop: for each role that matches, its key is desired and its binding is created.
  unfoldable pub create_all :
      String
      → List Membership
      → Subject
      → List String
      → List Role
      → Exec B.State Failure (List String)
  create_all cruid groups subject desired [] s = (ok desired, s)
  create_all cruid groups subject desired (role ∷ roles) s =
      elim (group_matches groups role.annotations) [
        | false ↦ create_all cruid groups subject desired roles s
        | true ↦
            let b = make_binding kind.role_kind cruid subject role in
            let (r, s') = B.create b s in
            elim (pass is_already_exists (kind.creating b) r) [
              | err e ↦ (err e, s')
              | ok _ ↦ create_all cruid groups subject (kind.key b ∷ desired) roles s'
            ]
      ]

  -- The second loop: what is not desired goes.
  unfoldable pub prune : List String → List Binding → Exec B.State Failure (Unit {0})
  prune desired [] s = (ok tt, s)
  prune desired (b ∷ bs) s = elim (is_desired desired (kind.key b)) [
    | true ↦ prune desired bs s
    | false ↦
        let (r, s') = B.delete b s in
        elim (pass is_not_found kind.pruning r) [ err e ↦ (err e, s') | ok _ ↦ prune desired bs s' ]
  ]

  unfoldable pub list_owned : String → Exec B.State Failure (List Binding)
  list_owned cruid s = let (r, s') = B.list cruid s in (named kind.listing r, s')

  -- Half of `syncBindings`, from the roles that its first list call gave.
  unfoldable pub sync_kind :
      String → List Membership → Subject → List Role → Exec B.State Failure (Unit {0})
  unfolding create_all list_owned prune
  sync_kind cruid groups subject roles s =
      let (created, t₀) = create_all cruid groups subject [] roles s in
      continue created
        (λ desired t. let (listed, t') = list_owned cruid t in continue listed (prune desired) t')
        t₀

  -- The loop of `deleteOwned`.
  unfoldable pub delete_all : List Binding → Exec B.State Failure (Unit {0})
  delete_all [] s = (ok tt, s)
  delete_all (b ∷ bs) s =
      let (r, s') = B.delete b s in
      elim (pass is_not_found kind.deleting r) [ err e ↦ (err e, s') | ok _ ↦ delete_all bs s' ]

  -- Half of `deleteOwned`.
  unfoldable pub delete_kind : String → Exec B.State Failure (Unit {0})
  unfolding list_owned delete_all
  delete_kind cruid s = let (listed, s') = list_owned cruid s in continue listed delete_all s'
