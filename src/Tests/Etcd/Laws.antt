-- ===== src/Tests/Etcd/Laws.antt =====
-- The list of bindings keeps the laws of the API server.
use mathlib.Core.Path.{subst}
use kube_argus.Base.{
  ◌≡◌, ◌≢◌, refl, sym, ap, ◌∙◌, inl, inr, String, ◌==◌, Bool, true, false, none, some, List, [],
  ◌∷◌, ok, err, arith, if◌then◌else◌, All, Option-cases, Bool-cases, text_cases, eq_iff, eq_refl,
}
use kube_argus.Base.Dict.{lookup}
use kube_argus.Operator.Types.{Binding, owner_label}
use kube_argus.Operator.Api.{not_found, already_exists, IsBindings, IsOwned, Listed}
use kube_argus.Tests.Etcd.{find, drop_key, owned_by, collect, list, create, delete, etcd}

module _ (key : Binding → String) where
  find-key : (s : List Binding) (k : String) (b : Binding) → find key k s ≡ some b → key b ≡ k
  unfolding find
  find-key [] k b h = ground arith
  find-key (x ∷ s) k b h = elim (text_cases (key x) k) [
    | inl (e, p) ↦ let h' = rw (e, if◌then◌else◌) at h in cc (h', p)
    | inr (e, n) ↦ find-key s k b (rw (e, if◌then◌else◌) at h)
  ]

  owned_by-IsOwned : (uid : String) (b : Binding) → owned_by key uid b ≡ true → IsOwned uid b
  unfolding owned_by
  owned_by-IsOwned uid b h = elim (Option-cases (lookup owner_label b.labels)) [
    | inl e ↦ ground arith
    | inr (u, e) ↦ ground (arith, eq_iff u uid)
  ]

  IsOwned-owned_by : (uid : String) (b : Binding) → IsOwned uid b → owned_by key uid b ≡ true
  unfolding owned_by
  IsOwned-owned_by uid b h = ground (arith, eq_refl uid)

  find-drop_key :
      (s : List Binding) (k j : String)
      → find key j (drop_key key k s) ≡ (if k == j then none else find key j s)
  unfolding find drop_key
  find-drop_key [] k j = ground arith
  find-drop_key (x ∷ s) k j = elim (text_cases (key x) k) [
    | inl (e, p) ↦ let ih = find-drop_key s k j in rw (e, p) (ground (arith, ih))
    | inr (e, n) ↦
        let ih = find-drop_key s k j in
        elim (text_cases (key x) j) [
          | inl (m, q) ↦ elim (text_cases k j) [
            | inl (f, r) ↦ absurd (n (q ∙ sym r))
            | inr (f, r) ↦ ground arith
          ]
          | inr (m, q) ↦ ground (arith, ih)
        ]
  ]

  collect-none :
      (uid : String) (s xs : List Binding) (x : Binding)
      → find key (key x) s ≡ none
      → collect key uid s (x ∷ xs) ≡ collect key uid s xs
  unfolding collect
  collect-none uid s xs x e = ground arith

  collect-foreign :
      (uid : String) (s xs : List Binding) (x b : Binding)
      → find key (key x) s ≡ some b
      → owned_by key uid b ≡ false
      → collect key uid s (x ∷ xs) ≡ collect key uid s xs
  unfolding collect
  collect-foreign uid s xs x b e n = ground arith

  collect-own :
      (uid : String) (s xs : List Binding) (x b : Binding)
      → find key (key x) s ≡ some b
      → owned_by key uid b ≡ true
      → collect key uid s (x ∷ xs) ≡ b ∷ collect key uid s xs
  unfolding collect
  collect-own uid s xs x b e n = ground arith

  collect-owned :
      (uid : String) (s xs : List Binding)
      → All (λ b. (find key (key b) s ≡ some b) × IsOwned uid b) (collect key uid s xs)
  unfolding collect
  collect-owned uid s [] = tt
  collect-owned uid s (x ∷ xs) =
      let rest = collect-owned uid s xs in
      elim (Option-cases (find key (key x) s)) [
        | inl e ↦ rw (collect-none uid s xs x e) rest
        | inr (b, e) ↦ elim (Bool-cases (owned_by key uid b)) [
          | inr n ↦ rw (collect-foreign uid s xs x b e n) rest
          | inl o ↦ rw (collect-own uid s xs x b e o) (
            (ap (λ k. find key k s) (find-key s (key x) b e) ∙ e, owned_by-IsOwned uid b o),
            rest,
          )
        ]
      ]

  find-skip :
      (s : List Binding) (x : Binding) (k : String)
      → (key x == k) ≡ false
      → find key k (x ∷ s) ≡ find key k s
  unfolding find
  find-skip s x k e = ground arith

  find-nothing : (k : String) (c : Binding) → find key k [] ≡ some c → ⊥
  unfolding find
  find-nothing k c h = ground arith

  -- A key that is bound in the list key is collected.
  collect-all :
      (uid : String) (s xs : List Binding) (k : String) (b c : Binding)
      → find key k xs ≡ some c
      → find key k s ≡ some b
      → IsOwned uid b
      → Listed key k (collect key uid s xs)
  collect-all uid s [] k b c h v o = absurd (find-nothing k c h)
  collect-all uid s (x ∷ xs) k b c h v o = elim (text_cases (key x) k) [
    | inl (e, p) ↦
        rw (collect-own uid s xs x b (ap (λ j. find key j s) p ∙ v) (IsOwned-owned_by uid b o))
          (inl (find-key s k b v))
    | inr (e, n) ↦
        let rest = collect-all uid s xs k b c (sym (find-skip xs x k e) ∙ h) v o in
        elim (Option-cases (find key (key x) s)) [
          | inl g ↦ rw (collect-none uid s xs x g) rest
          | inr (d, g) ↦ elim (Bool-cases (owned_by key uid d)) [
            | inr m ↦ rw (collect-foreign uid s xs x d g m) rest
            | inl m ↦ rw (collect-own uid s xs x d g m) (inr rest)
          ]
        ]
  ]

  list-list :
      (up : Bool) (uid : String) (s xs : List Binding)
      → (list key up uid s).0 ≡ ok xs
      → xs ≡ collect key uid s s
  unfolding list
  list-list true uid s xs h = cc
  list-list false uid s xs h = ground arith

  list-state : (up : Bool) (uid : String) (s : List Binding) → (list key up uid s).1 ≡ s
  unfolding list
  list-state up uid s = refl

  create-new :
      (b : Binding) (s : List Binding) → find key (key b) s ≡ none → create key b s ≡ (ok tt, b ∷ s)
  unfolding create
  create-new b s e = ground arith

  create-old :
      (b c : Binding) (s : List Binding)
      → find key (key b) s ≡ some c
      → create key b s ≡ (err already_exists, s)
  unfolding create
  create-old b c s e = ground arith

  create-free :
      (b : Binding) (s : List Binding)
      → (create key b s).0 ≡ ok tt
      → (find key (key b) s ≡ none)
        × ((k : String)
            → find key k (create key b s).1 ≡ (if key b == k then some b else find key k s))
  unfolding find
  create-free b s h = elim (Option-cases (find key (key b) s)) [
    | inl e ↦ (e, λ k. rw (create-new b s e) refl)
    | inr (c, e) ↦ let h' = rw (create-old b c s e) at h in ground arith
  ]

  create-taken :
      (b : Binding) (s : List Binding)
      → (create key b s).0 ≡ err already_exists
      → (find key (key b) s ≢ none) × ((k : String) → find key k (create key b s).1 ≡ find key k s)
  create-taken b s h = elim (Option-cases (find key (key b) s)) [
    | inl e ↦ let h' = rw (create-new b s e) at h in ground arith
    | inr (c, e) ↦ (λ n. ground arith, λ k. rw (create-old b c s e) refl)
  ]

  delete-old :
      (b c : Binding) (s : List Binding)
      → find key (key b) s ≡ some c
      → delete key b s ≡ (ok tt, drop_key key (key b) s)
  unfolding delete
  delete-old b c s e = ground arith

  delete-none :
      (b : Binding) (s : List Binding)
      → find key (key b) s ≡ none
      → delete key b s ≡ (err not_found, s)
  unfolding delete
  delete-none b s e = ground arith

  delete-ok :
      (b : Binding) (s : List Binding)
      → (delete key b s).0 ≡ ok tt
      → (k : String) → find key k (delete key b s).1 ≡ (if key b == k then none else find key k s)
  delete-ok b s h k = elim (Option-cases (find key (key b) s)) [
    | inl e ↦ let h' = rw (delete-none b s e) at h in ground arith
    | inr (c, e) ↦ rw (delete-old b c s e) (find-drop_key s (key b) k)
  ]

  delete-missing :
      (b : Binding) (s : List Binding)
      → (delete key b s).0 ≡ err not_found
      → (find key (key b) s ≡ none) × ((k : String) → find key k (delete key b s).1 ≡ find key k s)
  delete-missing b s h = elim (Option-cases (find key (key b) s)) [
    | inl e ↦ (e, λ k. rw (delete-none b s e) refl)
    | inr (c, e) ↦ let h' = rw (delete-old b c s e) at h in ground arith
  ]

  pub etcd-IsBindings : (up : Bool) → IsBindings key (etcd key up)
  etcd-IsBindings up = record {
    view = λ s k. find key k s;
    view_key = find-key;
    list_same = λ uid s xs h k. ap (find key k) (list-state up uid s);
    list_owned =
        λ uid s xs h. subst (All _) (sym (list-list up uid s xs h)) (collect-owned uid s s);
    list_all = λ uid s xs h k b v o.
        subst (Listed key k) (sym (list-list up uid s xs h)) (collect-all uid s s k b b v v o);
    create_ok = create-free;
    create_taken = create-taken;
    delete_ok = delete-ok;
    delete_missing = delete-missing;
  }
