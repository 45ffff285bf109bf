-- ===== src/Proxy/Isolation.antt =====
-- `ServeHTTP` of service/internal/proxy/proxy.go gives a user no token but the user's own.
use mathlib.Core.Path.{subst}
use kube_argus.Base.{
  ◌≡◌, ◌≢◌, sym, ap, ◌∙◌, ◌⊎◌, inl, inr, String, ◌==◌, ◌&&◌, true, false, not, arith, Result, ok,
  err, if◌then◌else◌, Outcome-cases, Bool-cases, eq_iff,
}
use kube_argus.K8s.SanitizeName.{sanitize_name}
use kube_argus.Proxy.{
  Wiring, Proxy, Request, Outcome, bad_gateway, forwarded, bearer, rewrite, user_of, token, swap,
  authenticate, serve,
}
use kube_argus.Proxy.Cache.{MintedFor, IsSound, token-Serves}
use kube_argus.Proxy.Swap.{Swapped, rewrite-Swapped}

module _ (W : Wiring) where
  -- The id_token of the bearer is the broker's, its user has a name, and the token is one that was
  -- minted for the user's ServiceAccount.
  pub record ForUser (r : Request) (p : Proxy) (w : W.World) (r' : Request) : Type 0 where
    pub id : W.IdToken
    pub sa_token : String
    pub verified : (W.verify (bearer r) w).0 ≡ ok id
    pub named : user_of W p id ≢ ""
    pub answered :
        (token W (sanitize_name (user_of W p id)) (p, (W.verify (bearer r) w).1)).0 ≡ ok sa_token
    pub own : MintedFor W (sanitize_name (user_of W p id)) sa_token
    pub swapped : Swapped W r sa_token r'

  -- Why a request goes on as it came.
  pub data Unswapped (r : Request) (p : Proxy) (w : W.World) : Type 0 where
    no_bearer : bearer r == "" ≡ true → Unswapped r p w
    unverified : (e : String) → (W.verify (bearer r) w).0 ≡ err e → Unswapped r p w
    unnamed :
        (id : W.IdToken)
        → (W.verify (bearer r) w).0 ≡ ok id
        → user_of W p id == "" ≡ true
        → Unswapped r p w

  abbrev pub after_verify : Request → W.World → W.World
  after_verify r w = (W.verify (bearer r) w).1

  abbrev pub served : W.IdToken → Proxy → W.World → Result String String × (Proxy × W.World)
  served id p w = token W (sanitize_name (user_of W p id)) (p, w)

  pub swap-unnamed :
      (r : Request) (id : W.IdToken) (p : Proxy) (w : W.World)
      → user_of W p id == "" ≡ true
      → swap W r id (p, w) ≡ (ok r, (p, w))
  unfolding swap
  swap-unnamed r id p w q = ground arith

  pub swap-ok :
      (r : Request) (id : W.IdToken) (p : Proxy) (w : W.World) (t : String)
      → user_of W p id == "" ≡ false
      → (served id p w).0 ≡ ok t
      → swap W r id (p, w) ≡ (ok (rewrite W t r), (served id p w).1)
  unfolding swap
  swap-ok r id p w t q h = ground arith

  pub swap-err :
      (r : Request) (id : W.IdToken) (p : Proxy) (w : W.World) (e : String)
      → user_of W p id == "" ≡ false
      → (served id p w).0 ≡ err e
      → swap W r id (p, w) ≡ (err e, (served id p w).1)
  unfolding swap
  swap-err r id p w e q h = ground arith

  pub authenticate-unverified :
      (raw : String) (r : Request) (p : Proxy) (w : W.World) (e : String)
      → (W.verify raw w).0 ≡ err e
      → authenticate W raw r (p, w) ≡ (forwarded r, (p, (W.verify raw w).1))
  unfolding authenticate
  authenticate-unverified raw r p w e h = ground arith

  pub authenticate-ok :
      (raw : String) (r r' : Request) (p : Proxy) (w : W.World) (id : W.IdToken)
      (st : Proxy × W.World)
      → (W.verify raw w).0 ≡ ok id
      → swap W r id (p, (W.verify raw w).1) ≡ (ok r', st)
      → authenticate W raw r (p, w) ≡ (forwarded r', st)
  unfolding authenticate
  authenticate-ok raw r r' p w id st h s = ground arith

  pub authenticate-err :
      (raw : String) (r : Request) (p : Proxy) (w : W.World) (id : W.IdToken) (e : String)
      (st : Proxy × W.World)
      → (W.verify raw w).0 ≡ ok id
      → swap W r id (p, (W.verify raw w).1) ≡ (err e, st)
      → authenticate W raw r (p, w) ≡ (bad_gateway, st)
  unfolding authenticate
  authenticate-err raw r p w id e st h s = ground arith

  -- What `swap` made of the request and of the cache.
  record SwapEnds (r : Request) (id : W.IdToken) (p : Proxy) (w : W.World) : Type 0 where
    sound : IsSound W (swap W r id (p, w)).1.0.cache
    sent :
        (r' : Request)
        → (swap W r id (p, w)).0 ≡ ok r'
        → ((r' ≡ r) × (user_of W p id == "" ≡ true))
          ⊎ ((t : String) × (user_of W p id ≢ "")
              × ((served id p w).0 ≡ ok t)
              × MintedFor W (sanitize_name (user_of W p id)) t
              × Swapped W r t r')

  named_user : (u : String) → u == "" ≡ false → u ≢ ""
  named_user u q e = let h = (eq_iff u "").1 e in ground arith

  ok-request : (x y : Request) → ◌≡◌ {A = Result String Request} (ok x) (ok y) → x ≡ y
  ok-request x y h = ground arith

  swap-SwapEnds :
      (r : Request) (id : W.IdToken) (p : Proxy) (w : W.World)
      → IsSound W p.cache
      → SwapEnds r id p w
  swap-SwapEnds r id p w s = elim (Bool-cases (user_of W p id == "")) [
    | inl q ↦
        let e = swap-unnamed r id p w q in
        record {
          sound = rw e s;
          sent = λ r' h. inl (sym (ok-request r r' (ap (λ x. x.0) (sym e) ∙ h)), q);
        }
    | inr q ↦
        let run = token-Serves W (sanitize_name (user_of W p id)) p w s in
        elim (Outcome-cases (served id p w).0) [
          | inl (t, o) ↦
              let e = swap-ok r id p w t q o in
              record {
                sound = rw e run.sound;
                sent = λ r' h.
                    let same = ok-request (rewrite W t r) r' (ap (λ x. x.0) (sym e) ∙ h) in
                    inr (
                      t,
                      named_user (user_of W p id) q,
                      o,
                      run.own t o,
                      subst (Swapped W r t) same (rewrite-Swapped W t r),
                    );
              }
          | inr (f, o) ↦
              let e = swap-err r id p w f q o in
              record { sound = rw e run.sound; sent = λ r' h. let h' = rw e at h in ground arith }
        ]
  ]

  -- What a request leads to: the cache stays sound, and what goes on is the request as it came or
  -- the one for its user.
  pub record Isolated (r : Request) (p : Proxy) (w : W.World) (o : Outcome) (p' : Proxy)
      : Type 0 where
    pub sound : IsSound W p'.cache
    pub sent : (r' : Request) → o ≡ forwarded r' → ((r' ≡ r) × Unswapped r p w) ⊎ ForUser r p w r'

  same_request : (x y : Request) → forwarded x ≡ forwarded y → y ≡ x
  same_request x y h = ground arith

  authenticate-Isolated :
      (r : Request) (p : Proxy) (w : W.World)
      → IsSound W p.cache
      → Isolated r p w
          (authenticate W (bearer r) r (p, w)).0
          (authenticate W (bearer r) r (p, w)).1.0
  authenticate-Isolated r p w s = elim (Outcome-cases (W.verify (bearer r) w).0) [
    | inr (e, v) ↦
        rw (authenticate-unverified (bearer r) r p w e v)
          (record { sound = s; sent = λ r' h. inl (same_request r r' h, unverified e v) })
    | inl (id, v) ↦
        let ends = swap-SwapEnds r id p (after_verify r w) s in
        let st = (swap W r id (p, after_verify r w)).1 in
        elim (Outcome-cases (swap W r id (p, after_verify r w)).0) [
          | inl (x, o) ↦
              rw (authenticate-ok (bearer r) r x p w id st v (ap (λ y. (y, st)) o)) (record {
                sound = ends.sound;
                sent = λ r' h. elim (ends.sent r' (o ∙ ap ok (sym (same_request x r' h)))) [
                  | inl (e, q) ↦ inl (e, unnamed id v q)
                  | inr (t, n, a, m, k) ↦ inr (record {
                    id = id;
                    sa_token = t;
                    verified = v;
                    named = n;
                    answered = a;
                    own = m;
                    swapped = k;
                  })
                ];
              })
          | inr (f, o) ↦
              rw (authenticate-err (bearer r) r p w id f st v (ap (λ y. (y, st)) o))
                (record { sound = ends.sound; sent = λ r' h. ground arith })
        ]
  ]

  -- If every cached token was minted for the ServiceAccount it is cached for, then that is so after
  -- the request. What the proxy sends to the API server is, for a bearer that verifies as an id_token
  -- with a user name, the request with a token that was minted for the ServiceAccount of that user,
  -- without the canonical headers that impersonate, and else the same; and only without a bearer, for
  -- one that does not verify, or for one that names no user, it is the request unchanged.
  pub serve-Isolated :
      (r : Request) (p : Proxy) (w : W.World)
      → IsSound W p.cache
      → Isolated r p w (serve W r (p, w)).0 (serve W r (p, w)).1.0
  unfolding serve
  serve-Isolated r p w s = elim (Bool-cases (r.path == "/healthz" && bearer r == "")) [
    | inl h ↦ rw (h, if◌then◌else◌) (record { sound = s; sent = λ r' e. ground arith })
    | inr h ↦ elim (Bool-cases (bearer r == "")) [
      | inl b ↦
          rw (h, if◌then◌else◌, b, not, if◌then◌else◌)
            (record { sound = s; sent = λ r' e. inl (same_request r r' e, no_bearer b) })
      | inr b ↦ rw (h, if◌then◌else◌, b, not, if◌then◌else◌) (authenticate-Isolated r p w s)
    ]
  ]
