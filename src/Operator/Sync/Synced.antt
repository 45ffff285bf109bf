-- ===== src/Operator/Sync/Synced.antt =====
-- What a half of `syncBindings`, and of `deleteOwned`, has done when it returns no error.
use kube_argus.Base.{String, ◌≡◌, ◌≢◌, sym, ◌⊎◌, inl, inr, true, ◌∙◌}
use kube_argus.Base.{none, some, List, [], Result, ok, err, arith, Bool-cases}
use kube_argus.Base.{Option-cases, Outcome-cases, some_of}
use kube_argus.Operator.Types.{Membership, Role, Subject, Binding}
use kube_argus.Operator.Api.{ApiError, Bindings, IsBindings, IsOwned, Listed}
use kube_argus.Operator.Sync.{
  Failure, Kind, named, is_desired, create_all, prune, list_owned, sync_kind, delete_kind,
}
use kube_argus.Operator.Sync.Creating.{is_granted, IsMade, Created, create_all_lem}
use kube_argus.Operator.Sync.Clearing.{Cleared, prune-Cleared, delete_all-Cleared}
use kube_argus.Operator.Sync.Released.{
  Released, owned_of_listed, owned, delete_kind-all, delete_kind-no_list, Released-all,
}

module _ (B : Bindings) (kind : Kind) (L : IsBindings kind.key B) where
  -- From `s` to `t`:
  -- - an owned binding that is left stands under the key of a granted role;
  -- - under the key of each granted role stands a binding;
  -- - a binding of somebody else stays as it was;
  -- - a binding that is left was there, or is the one that the loop makes for a granted role;
  -- - what was there under a granted key is not written again.
  pub record Synced (cruid : String) (groups : List Membership) (subject : Subject)
      (roles : List Role) (s t : B.State) : Type 0 where
    pub pruned :
        (k : String) (c : Binding)
        → L.view t k ≡ some c
        → IsOwned cruid c
        → is_granted kind cruid groups subject roles k ≡ true
    pub bound :
        (k : String) → is_granted kind cruid groups subject roles k ≡ true → L.view t k ≢ none
    pub foreign :
        (k : String) (c : Binding) → L.view s k ≡ some c → ¬ (IsOwned cruid c) → L.view t k ≡ some c
    pub origin :
        (k : String) (c : Binding)
        → L.view t k ≡ some c
        → (L.view s k ≡ some c) ⊎ IsMade kind cruid groups subject roles c
    pub kept :
        (k : String) (c : Binding)
        → L.view s k ≡ some c
        → is_granted kind cruid groups subject roles k ≡ true
        → L.view t k ≡ some c

  module _ (cruid : String) (groups : List Membership) (subject : Subject) (roles : List Role)
      (s : B.State) where
    created : Result Failure (List String) × B.State
    created = create_all B kind cruid groups subject [] roles s

    listed : Result ApiError (List Binding) × B.State
    listed = B.list cruid created.1

    sync_kind-prune :
        (ds : List String) (xs : List Binding)
        → created.0 ≡ ok ds
        → listed.0 ≡ ok xs
        → sync_kind B kind cruid groups subject roles s ≡ prune B kind ds xs listed.1
    unfolding created listed sync_kind list_owned named
    sync_kind-prune ds xs p q = ground arith

    sync_kind-no_create :
        (f : Failure)
        → created.0 ≡ err f
        → (sync_kind B kind cruid groups subject roles s).0 ≡ err f
    unfolding created sync_kind
    sync_kind-no_create f p = ground arith

    sync_kind-no_list :
        (ds : List String) (e : ApiError)
        → created.0 ≡ ok ds
        → listed.0 ≡ err e
        → (sync_kind B kind cruid groups subject roles s).0
          ≡ err (record { doing = kind.listing; cause = e })
    unfolding created listed sync_kind list_owned named
    sync_kind-no_list ds e p q = ground arith

    loop-Created :
        (ds : List String)
        → created.0 ≡ ok ds
        → Created B kind L cruid groups subject [] ds roles s created.1
    unfolding created
    loop-Created ds p = create_all_lem B kind L cruid groups subject ds roles s p

    module _ (ds : List String) (xs : List Binding) (t : B.State) (q : listed.0 ≡ ok xs)
        (c : Created B kind L cruid groups subject [] ds roles s created.1)
        (d : Cleared B kind L (is_desired ds) xs listed.1 t) where
      before_list : (k : String) → L.view listed.1 k ≡ L.view created.1 k
      unfolding listed
      before_list = L.list_same cruid created.1 xs q

      -- What the create loop left stays if it is desired or was not listed.
      synced_stays :
          (k : String) (b : Binding)
          → L.view created.1 k ≡ some b
          → (is_desired ds k ≡ true) ⊎ ¬ (Listed kind.key k xs)
          → L.view t k ≡ some b
      synced_stays k b v why = d.kept k b (before_list k ∙ v) why

      desired_iff_granted :
          (k : String) → is_desired ds k ≡ is_granted kind cruid groups subject roles k
      desired_iff_granted k = rw c.desires (unfold is_desired some_of in ground arith)

      synced_pruned :
          (k : String) (b : Binding)
          → L.view t k ≡ some b
          → IsOwned cruid b
          → is_granted kind cruid groups subject roles k ≡ true
      unfolding listed
      synced_pruned k b v o = elim (Bool-cases (is_desired ds k)) [
        | inl y ↦ sym (desired_iff_granted k) ∙ y
        | inr n ↦
            let was = sym (before_list k) ∙ d.origin k b v in
            cc (v, d.gone k n (L.list_all cruid created.1 xs q k b was o))
      ]

      synced_bound :
          (k : String) → is_granted kind cruid groups subject roles k ≡ true → L.view t k ≢ none
      synced_bound k g z = elim (Option-cases (L.view created.1 k)) [
        | inl n ↦ c.there k g n
        | inr (b, v) ↦ cc (z, synced_stays k b v (inl (desired_iff_granted k ∙ g)))
      ]

      synced_foreign :
          (k : String) (b : Binding)
          → L.view s k ≡ some b
          → ¬ (IsOwned cruid b)
          → L.view t k ≡ some b
      unfolding listed
      synced_foreign k b v foreign =
          let there = c.kept k b v in
          synced_stays k b there (
            inr (λ l. foreign (
              owned_of_listed B kind L cruid created.1 k b xs (L.list_owned cruid created.1 xs q) l
                there)))

      Synced-prune : Synced cruid groups subject roles s t
      Synced-prune = record {
        pruned = synced_pruned;
        bound = synced_bound;
        foreign = synced_foreign;
        origin = λ k b v. c.origin k b (sym (before_list k) ∙ d.origin k b v);
        kept = λ k b v g. synced_stays k b (c.kept k b v) (inl (desired_iff_granted k ∙ g));
      }

    -- When `sync_kind` returns no error, every owned binding left stands under the key of a role that
    -- carries a group of the memberships, each such key has a binding, the bindings of others are
    -- as they were, what is new is the binding of such a role, and what stood under such a key is
    -- not written again.
    pub sync_kind-Synced :
        (sync_kind B kind cruid groups subject roles s).0 ≡ ok tt
        → Synced cruid groups subject roles s (sync_kind B kind cruid groups subject roles s).1
    sync_kind-Synced h = elim (Outcome-cases created.0) [
      | inr (f, p) ↦ cc (h, sync_kind-no_create f p)
      | inl (ds, p) ↦ elim (Outcome-cases listed.0) [
        | inr (e, q) ↦ cc (h, sync_kind-no_list ds e p q)
        | inl (xs, q) ↦ rw (sync_kind-prune ds xs p q) (
            Synced-prune ds xs _ q (loop-Created ds p)
              (prune-Cleared B kind L ds xs listed.1 (rw (sync_kind-prune ds xs p q) at h)))
      ]
    ]

  module _ (cruid : String) (s : B.State) where
    -- When `delete_kind` returns no error, no binding with the label is left, the bindings of others are
    -- as they were, and none is new.
    pub delete_kind-Released :
        (delete_kind B kind cruid s).0 ≡ ok tt
        → Released B kind L cruid s (delete_kind B kind cruid s).1
    delete_kind-Released h = elim (Outcome-cases (owned B kind L cruid s).0) [
      | inr (e, q) ↦ cc (h, delete_kind-no_list B kind L cruid s e q)
      | inl (xs, q) ↦ rw (delete_kind-all B kind L cruid s xs q) (
          Released-all B kind L cruid s xs _ q (
            delete_all-Cleared B kind L xs (owned B kind L cruid s).1
              (rw (delete_kind-all B kind L cruid s xs q) at h)))
    ]
