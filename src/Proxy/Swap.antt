-- ===== src/Proxy/Swap.antt =====
-- What `ServeHTTP` and `swap` of service/internal/proxy/proxy.go send on to the API server.
use mathlib.Core.Path.{subst}
use kube_argus.Base.{
  ◌≡◌, ◌≢◌, refl, sym, ap, ◌∙◌, inl, inr, String, ◌==◌, ◌<>◌, Bool, true, false, none, some, List,
  [], ◌∷◌, arith, if◌then◌else◌, Option-cases, Bool-cases, text_cases, eq_refl,
}
use kube_argus.Base.Dict.{Dict, lookup, insert, remove, lookup-insert, lookup-remove}
use kube_argus.Proxy.{Wiring, Request, after_prefix, is_impersonation, drop_impersonation, rewrite}

module _ (W : Wiring) where
  -- The key names a header that impersonates.
  abbrev pub Impersonates : String → Type 0
  Impersonates k = after_prefix "Impersonate-" k ≢ none

  not_impersonation :
      (h k : String)
      → after_prefix "Impersonate-" k ≡ none
      → is_impersonation W h ≡ true
      → W.canonical h ≢ k
  unfolding is_impersonation
  not_impersonation h k n i e =
      let none' : after_prefix "Impersonate-" (W.canonical h) ≡ none =
        ap (after_prefix "Impersonate-") e ∙ n in
      ground arith

  yes_impersonation :
      (h : String) → Impersonates h → W.canonical h ≡ h → is_impersonation W h ≡ true
  unfolding is_impersonation
  yes_impersonation h i e = elim (Option-cases (after_prefix "Impersonate-" h)) [
    | inl n ↦ absurd (i n)
    | inr (x, s) ↦
        let s' : after_prefix "Impersonate-" (W.canonical h) ≡ some x =
          ap (after_prefix "Impersonate-") e ∙ s in
        ground arith
  ]

  drop-step :
      (h : String) (v : List String) (hs m : Dict (List String)) (i : Bool)
      → is_impersonation W h ≡ i
      → drop_impersonation W ((h, v) ∷ hs) m
        ≡ drop_impersonation W hs (if i then remove (W.canonical h) m else m)
  unfolding drop_impersonation
  drop-step h v hs m i e = rw e refl

  -- Other headers stay.
  drop-kept :
      (k : String) (hs m : Dict (List String))
      → after_prefix "Impersonate-" k ≡ none
      → lookup k (drop_impersonation W hs m) ≡ lookup k m
  drop-kept k [] m n = unfold drop_impersonation in refl
  drop-kept k ((h, v) ∷ hs) m n = elim (Bool-cases (is_impersonation W h)) [
    | inl i ↦ elim (text_cases (W.canonical h) k) [
      | inl (q, e) ↦ absurd (not_impersonation h k n i e)
      | inr (q, e) ↦
          ap (lookup k) (drop-step h v hs m true i)
          ∙ drop-kept k hs (remove (W.canonical h) m) n
          ∙ lookup-remove (W.canonical h) k m
          ∙ rw (q, if◌then◌else◌) refl
    ]
    | inr i ↦ ap (lookup k) (drop-step h v hs m false i) ∙ drop-kept k hs m n
  ]

  -- A key that is gone stays gone.
  drop-none :
      (k : String) (hs m : Dict (List String))
      → lookup k m ≡ none
      → lookup k (drop_impersonation W hs m) ≡ none
  drop-none k [] m n = unfold drop_impersonation in n
  drop-none k ((h, v) ∷ hs) m n = elim (Bool-cases (is_impersonation W h)) [
    | inl i ↦
        ap (lookup k) (drop-step h v hs m true i)
        ∙ drop-none k hs (remove (W.canonical h) m)
            (lookup-remove (W.canonical h) k m ∙ ground arith)
    | inr i ↦ ap (lookup k) (drop-step h v hs m false i) ∙ drop-none k hs m n
  ]

  lookup-skip :
      (h k : String) (v : List String) (hs : Dict (List String))
      → (h == k) ≡ false
      → lookup k ((h, v) ∷ hs) ≡ lookup k hs
  unfolding lookup
  lookup-skip h k v hs q = rw q refl

  drop-gone :
      (k : String) (hs m : Dict (List String))
      → Impersonates k
      → W.canonical k ≡ k
      → lookup k hs ≢ none
      → lookup k (drop_impersonation W hs m) ≡ none
  drop-gone k [] m i c n = absurd (n (unfold lookup in refl))
  drop-gone k ((h, v) ∷ hs) m i c n = elim (text_cases h k) [
    | inl (q, e) ↦
        let yes = subst (λ x. is_impersonation W x ≡ true) (sym e) (yes_impersonation k i c) in
        ap (lookup k) (drop-step h v hs m true yes)
        ∙ drop-none k hs (remove (W.canonical h) m)
            (lookup-remove (W.canonical h) k m ∙ rw (e, c, eq_refl k, if◌then◌else◌) refl)
    | inr (q, e) ↦
        let rest = λ (m' : Dict (List String)).
          drop-gone k hs m' i c (λ x. n (lookup-skip h k v hs q ∙ x)) in
        elim (Bool-cases (is_impersonation W h)) [
          | inl y ↦ ap (lookup k) (drop-step h v hs m true y) ∙ rest (remove (W.canonical h) m)
          | inr y ↦ ap (lookup k) (drop-step h v hs m false y) ∙ rest m
        ]
  ]

  -- The request as it goes on for a user: the same but for the headers, of which Authorization is
  -- the token's, none impersonates and the others are those of the client.
  pub record Swapped (r : Request) (sa_token : String) (r' : Request) : Type 0 where
    pub path : r'.path ≡ r.path
    pub bearer : lookup "Authorization" r'.headers ≡ some (("Bearer " <> sa_token) ∷ [])
    pub plain : (k : String) → Impersonates k → W.canonical k ≡ k → lookup k r'.headers ≡ none
    pub others :
        (k : String)
        → after_prefix "Impersonate-" k ≡ none
        → "Authorization" ≢ k
        → lookup k r'.headers ≡ lookup k r.headers

  abbrev authorized : String → Request → Dict (List String)
  authorized t r = insert "Authorization" (("Bearer " <> t) ∷ []) r.headers

  pub rewrite-Swapped : (t : String) (r : Request) → Swapped r t (rewrite W t r)
  unfolding rewrite
  rewrite-Swapped t r = record {
    path = refl;
    bearer =
        drop-kept "Authorization" (authorized t r) (authorized t r) (unfold after_prefix in refl)
        ∙ lookup-insert "Authorization" "Authorization" (("Bearer " <> t) ∷ []) r.headers;
    plain = λ k i c. elim (Option-cases (lookup k (authorized t r))) [
      | inl n ↦ drop-none k (authorized t r) (authorized t r) n
      | inr (v, e) ↦ drop-gone k (authorized t r) (authorized t r) i c (λ n. ground arith)
    ];
    others = λ k n d.
        drop-kept k (authorized t r) (authorized t r) n
        ∙ lookup-insert "Authorization" k (("Bearer " <> t) ∷ []) r.headers
        ∙ elim (text_cases "Authorization" k) [
          | inl (q, e) ↦ absurd (d e)
          | inr (q, e) ↦ rw (q, if◌then◌else◌) refl
        ];
  }
