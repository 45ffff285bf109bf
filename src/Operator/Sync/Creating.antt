-- ===== src/Operator/Sync/Creating.antt =====
-- The first loop of `syncBindings`: nothing is overwritten, and what matches is there afterwards.
use kube_argus.Base.{String, ◌≡◌, ◌≢◌, refl, ◌⊎◌, inl, inr, Bool, true, false, ◌&&◌, ◌||◌, ◌==◌}
use kube_argus.Base.{
  none, some, List, [], ◌∷◌, Result, ok, err, arith, eq_iff, Bool-cases, Option-cases, Result-cases,
  ap, ◌∙◌,
}
use kube_argus.Base.{some_of, Exec}
use kube_argus.Operator.Types.{Membership, Role, Subject, Binding}
use kube_argus.Operator.Api.{ApiError, not_found, already_exists, other, Bindings, IsBindings}
use kube_argus.Operator.Sync.{
  Failure, Kind, group_matches, make_binding, is_already_exists, pass, is_desired, create_all,
}

pass_exists-cases :
    (doing : String) (r : Result ApiError (Unit {0}))
    → pass is_already_exists doing r ≡ ok tt
    → (r ≡ ok tt) ⊎ (r ≡ err already_exists)
unfolding pass
pass_exists-cases doing (ok tt) h = inl refl
pass_exists-cases doing (err already_exists) h = inr refl
pass_exists-cases doing (err not_found) h = cc
pass_exists-cases doing (err (other e)) h = cc

-- Some role that carries a group of the memberships has its binding under the key.
abbrev pub is_granted : Kind → String → List Membership → Subject → List Role → String → Bool
is_granted kind cruid groups subject [] k = false
is_granted kind cruid groups subject (role ∷ roles) k =
    (group_matches groups role.annotations
      && kind.key (make_binding kind.role_kind cruid subject role) == k)
    || is_granted kind cruid groups subject roles k

-- The binding is the one of a role that carries a group of the memberships.
abbrev pub IsMade : Kind → String → List Membership → Subject → List Role → Binding → Type 0
IsMade kind cruid groups subject [] c = ⊥
IsMade kind cruid groups subject (role ∷ roles) c =
    ((group_matches groups role.annotations ≡ true)
      × (make_binding kind.role_kind cruid subject role ≡ c))
    ⊎ IsMade kind cruid groups subject roles c

module _ (B : Bindings) (kind : Kind) (L : IsBindings kind.key B) where
  -- One create that the loop does not stop at.
  module _ (b : Binding) (s : B.State) (doing : String)
      (passed : pass is_already_exists doing (B.create b s).0 ≡ ok tt) where
    create_kept :
        (k : String) (c : Binding) → L.view s k ≡ some c → L.view (B.create b s).1 k ≡ some c
    create_kept k c h = elim (pass_exists-cases doing (B.create b s).0 passed) [
      | inl e ↦
          ground (arith, (L.create_ok b s e).0, (L.create_ok b s e).1 k, eq_iff (kind.key b) k)
      | inr e ↦ ground (arith, (L.create_taken b s e).1 k)
    ]

    create_origin :
        (k : String) (c : Binding)
        → L.view (B.create b s).1 k ≡ some c
        → (L.view s k ≡ some c) ⊎ (b ≡ c)
    create_origin k c h = elim (pass_exists-cases doing (B.create b s).0 passed) [
      | inl e ↦ ground (arith, (L.create_ok b s e).1 k)
      | inr e ↦ ground (arith, (L.create_taken b s e).1 k)
    ]

    create_there : L.view (B.create b s).1 (kind.key b) ≢ none
    create_there h = elim (pass_exists-cases doing (B.create b s).0 passed) [
      | inl e ↦ ground (arith, (L.create_ok b s e).1 (kind.key b), eq_iff (kind.key b) (kind.key b))
      | inr e ↦ ground (arith, (L.create_taken b s e).0, (L.create_taken b s e).1 (kind.key b))
    ]

  -- What the loop did, from one view to the next, when it ended with the desired keys.
  pub record Created (cruid : String) (groups : List Membership) (subject : Subject)
      (before after : List String) (roles : List Role) (s t : B.State) : Type 0 where
    pub kept : (k : String) (c : Binding) → L.view s k ≡ some c → L.view t k ≡ some c
    pub origin :
        (k : String) (c : Binding)
        → L.view t k ≡ some c
        → (L.view s k ≡ some c) ⊎ IsMade kind cruid groups subject roles c
    pub there :
        (k : String) → is_granted kind cruid groups subject roles k ≡ true → L.view t k ≢ none
    pub desires :
        (k : String)
        → is_desired after k ≡ (is_granted kind cruid groups subject roles k || is_desired before k)

  module _ (cruid : String) (groups : List Membership) (subject : Subject) where
    abbrev make : Role → Binding
    make role = make_binding kind.role_kind cruid subject role

    abbrev tried : Role → B.State → Result Failure (Unit {0})
    tried role s = pass is_already_exists (kind.creating (make role)) (B.create (make role) s).0

    run : List String → List Role → Exec B.State Failure (List String)
    run = create_all B kind cruid groups subject

    run-skip :
        (before : List String) (role : Role) (roles : List Role) (s : B.State)
        → group_matches groups role.annotations ≡ false
        → run before (role ∷ roles) s ≡ run before roles s
    unfolding run create_all
    run-skip before role roles s e = ground arith

    run-stop :
        (before : List String) (role : Role) (roles : List Role) (s : B.State) (f : Failure)
        → group_matches groups role.annotations ≡ true
        → tried role s ≡ err f
        → run before (role ∷ roles) s ≡ (err f, (B.create (make role) s).1)
    unfolding run create_all
    run-stop before role roles s f e p = ground arith

    run-go :
        (before : List String) (role : Role) (roles : List Role) (s : B.State)
        → group_matches groups role.annotations ≡ true
        → tried role s ≡ ok tt
        → run before (role ∷ roles) s
          ≡ run (kind.key (make role) ∷ before) roles (B.create (make role) s).1
    unfolding run create_all
    run-go before role roles s e p = ground arith

    abbrev Did : List String → List String → List Role → B.State → Type 0
    Did before after roles s =
        Created cruid groups subject before after roles s (run before roles s).1

    -- A key that the create has filled stays filled.
    filled :
        (role : Role) (s t : B.State) (k : String)
        → tried role s ≡ ok tt
        → ((c : Binding) → L.view (B.create (make role) s).1 k ≡ some c → L.view t k ≡ some c)
        → (kind.key (make role) == k) ≡ true
        → L.view t k ≢ none
    filled role s t k p keep q z =
        let there = create_there (make role) s (kind.creating (make role)) p in
        let same = (eq_iff (kind.key (make role)) k).0 q in
        elim (Option-cases (L.view (B.create (make role) s).1 k)) [
          | inl n ↦ there (ap (L.view (B.create (make role) s).1) same ∙ n)
          | inr (c, v) ↦ cc (z, keep c v)
        ]

    Created-skip :
        (before after : List String) (role : Role) (roles : List Role) (s t : B.State)
        → group_matches groups role.annotations ≡ false
        → Created cruid groups subject before after roles s t
        → Created cruid groups subject before after (role ∷ roles) s t
    Created-skip before after role roles s t e c = record {
      kept = c.kept;
      origin = λ k b h. elim (c.origin k b h) [ inl o ↦ inl o | inr m ↦ inr (inr m) ];
      there = λ k h. c.there k (rw e at h);
      desires = λ k. rw e (c.desires k);
    }

    Created-go :
        (before after : List String) (role : Role) (roles : List Role) (s t : B.State)
        → group_matches groups role.annotations ≡ true
        → tried role s ≡ ok tt
        → Created cruid groups subject
            (kind.key (make role) ∷ before)
            after
            roles
            (B.create (make role) s).1
            t
        → Created cruid groups subject before after (role ∷ roles) s t
    unfolding is_desired some_of
    Created-go before after role roles s t e p c =
        let b = make role in
        let doing = kind.creating b in
        record {
          kept = λ k d h. c.kept k d (create_kept b s doing p k d h);
          origin = λ k d h. elim (c.origin k d h) [
            | inl o ↦ elim (create_origin b s doing p k d o) [
              | inl v ↦ inl v
              | inr m ↦ inr (inl (e, m))
            ]
            | inr m ↦ inr (inr m)
          ];
          there = λ k g. elim (Bool-cases (kind.key b == k)) [
            | inl q ↦ filled role s t k p (c.kept k) q
            | inr q ↦ c.there k (rw (e, q) at g)
          ];
          desires = λ k. rw e (ground (arith, c.desires k));
        }

    create_all-Created :
        (before after : List String) (roles : List Role) (s : B.State)
        → (run before roles s).0 ≡ ok after
        → Did before after roles s
    create_all-Created before after [] s h =
        unfold run create_all in
        record {
          kept = λ k c v. v;
          origin = λ k c v. inl v;
          there = λ k g. cc;
          desires = λ k. cc h;
        }
    create_all-Created before after (role ∷ roles) s h =
        elim (Bool-cases (group_matches groups role.annotations)) [
          | inl e ↦ elim (Result-cases (tried role s)) [
            | inl p ↦ rw (run-go before role roles s e p) (
                Created-go before after role roles s _ e p (
                  create_all-Created (kind.key (make role) ∷ before) after roles
                    (B.create (make role) s).1 (rw (run-go before role roles s e p) at h)))
            | inr (f, p) ↦ cc (h, run-stop before role roles s f e p)
          ]
          | inr e ↦ rw (run-skip before role roles s e) (
              Created-skip before after role roles s _ e (
                create_all-Created before after roles s (rw (run-skip before role roles s e) at h)))
        ]

    -- The first loop, from no desired key.
    pub create_all_lem :
        (after : List String) (roles : List Role) (s : B.State)
        → (create_all B kind cruid groups subject [] roles s).0 ≡ ok after
        → Created cruid groups subject [] after roles s
            (create_all B kind cruid groups subject [] roles s).1
    unfolding run
    create_all_lem after roles s h = create_all-Created [] after roles s h
