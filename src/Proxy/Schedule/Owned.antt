-- ===== src/Proxy/Schedule/Owned.antt =====
-- However requests interleave at the token cache of service/internal/proxy/proxy.go, each gets a token of its own
-- ServiceAccount.
use mathlib.Core.Path.{subst}
use kube_argus.Base.{
  ℕ, ◌+◌, String, ◌≡◌, refl, sym, ap, inl, inr, Option, none, some, List, [], ◌∷◌, ◌++◌, All,
  Result, ok, err, arith, ltb, if◌then◌else◌, Bool-cases, text_cases,
}
use kube_argus.Base.Dict.{Dict, lookup, insert, lookup-insert}
use kube_argus.Model.{Token}
use kube_argus.Proxy.{Wiring, CacheEntry}
use kube_argus.Proxy.Cache.{MintedFor, IsSound, entry-injective}
use kube_argus.Proxy.Schedule.{
  Phase, asking, minting, storing, returned, Caller, Shared, System, after_lookup, after_mint, turn,
  Step, turns, arrives, elsewhere, Reach, init, step,
}

module _ (W : Wiring) where
  -- A caller that has a token has one that was minted for its ServiceAccount.
  abbrev pub IsOwn : String → Phase → Type 0
  IsOwn sa asking = Unit
  IsOwn sa minting = Unit
  IsOwn sa (storing t) = MintedFor W sa t
  IsOwn sa (returned (err e)) = Unit
  IsOwn sa (returned (ok t)) = MintedFor W sa t

  pub record Owned (s : System W) : Type 0 where
    pub callers : All (λ (c : Caller). IsOwn c.sa c.phase) s.callers
    pub cache : IsSound W s.shared.cache

  after_lookup-IsOwn :
      (sa : String) (now : ℕ) (o : Option CacheEntry)
      → ((e : CacheEntry) → o ≡ some e → MintedFor W sa e.token)
      → IsOwn sa (after_lookup W now o)
  after_lookup-IsOwn sa now none f = tt
  after_lookup-IsOwn sa now (some e) f = elim (Bool-cases (ltb now e.exp)) [
    | inl h ↦ rw (h, if◌then◌else◌) (f e refl)
    | inr h ↦ rw (h, if◌then◌else◌) tt
  ]

  after_mint-IsOwn :
      (sa : String) (w : W.World) (r : Result String Token)
      → (W.mint sa w).0 ≡ r
      → IsOwn sa (after_mint W r)
  after_mint-IsOwn sa w (err e) h = tt
  after_mint-IsOwn sa w (ok t) h = record { world = w; minted = t; mint = h; same = refl }

  insert-IsSound :
      (sa t : String) (exp : ℕ) (m : Dict CacheEntry)
      → MintedFor W sa t
      → IsSound W m
      → IsSound W (insert sa (record { token = t; exp = exp }) m)
  insert-IsSound sa t exp m own s k e l = elim (text_cases sa k) [
    | inl (q, same) ↦
        let new : CacheEntry = record { token = t; exp = exp } in
        let found : lookup k (insert sa new m) ≡ some new =
          rw (lookup-insert, q, if◌then◌else◌) refl in
        let p = entry-injective W new e _ found l in
        subst (MintedFor W k) (ap (λ (x : CacheEntry). x.token) p) (rw⁻¹ same own)
    | inr (q, other) ↦ s k e (rw (lookup-insert, q, if◌then◌else◌) at l)
  ]

  -- One turn of a caller.
  turn-IsOwn :
      (ttl : ℕ) (sa : String) (p : Phase) (s : Shared W)
      → IsOwn sa p
      → IsSound W s.cache
      → IsOwn sa (turn W ttl sa p s).0 × IsSound W (turn W ttl sa p s).1.cache
  unfolding turn
  turn-IsOwn ttl sa asking s own c =
      (after_lookup-IsOwn sa (W.clock s.world) (lookup sa s.cache) (c sa), c)
  turn-IsOwn ttl sa minting s own c = (after_mint-IsOwn sa s.world (W.mint sa s.world).0 refl, c)
  turn-IsOwn ttl sa (storing t) s own c =
      (own, insert-IsSound sa t (W.clock s.world + ttl) s.cache own c)
  turn-IsOwn ttl sa (returned r) s own c = (own, c)

  -- The callers before, at and after the one that takes its turn.
  All-at :
      (P : Caller → Type 0) (before : List Caller) (c : Caller) (after : List Caller)
      → All P (before ++ (c ∷ after))
      → P c × ((d : Caller) → P d → All P (before ++ (d ∷ after)))
  All-at P [] c after (h, hs) = (h, λ d x. (x, hs))
  All-at P (b ∷ before) c after (h, hs) =
      let (at, put) = All-at P before c after hs in (at, λ d x. (h, put d x))

  Step-Owned : (ttl : ℕ) (s u : System W) → Step W ttl s u → Owned s → Owned u
  Step-Owned ttl s u (turns before c after e f) o =
      let (own, put) =
        All-at (λ (c : Caller). IsOwn c.sa c.phase) before c after
          (subst (All (λ (c : Caller). IsOwn c.sa c.phase)) e o.callers) in
      let (own', sound) = turn-IsOwn ttl c.sa c.phase s.shared own o.cache in
      subst Owned (sym f) (record { callers = put _ own'; cache = sound })
  Step-Owned ttl s u (arrives sa f) o =
      subst Owned (sym f) (record { callers = (tt, o.callers); cache = o.cache })
  Step-Owned ttl s u (elsewhere w f) o =
      subst Owned (sym f) (record { callers = o.callers; cache = o.cache })

  nothing-IsSound : IsSound W []
  unfolding lookup
  nothing-IsSound sa e l = ground arith

  -- In every state that requests for tokens reach, in whatever order their lookups, mints and insertions
  -- run: a request that has returned a token, or is about to store one, has one that was minted for the
  -- ServiceAccount that it asked for, and so has every entry of the cache.
  pub Reach-Owned : (ttl : ℕ) (s : System W) → Reach W ttl s → Owned s
  Reach-Owned ttl s (init w e) =
      subst Owned (sym e) (record { callers = tt; cache = nothing-IsSound })
  Reach-Owned ttl s (step r t) = Step-Owned ttl _ s t (Reach-Owned ttl _ r)
