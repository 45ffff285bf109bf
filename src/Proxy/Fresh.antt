-- ===== src/Proxy/Fresh.antt =====
-- How old a token is that the cache of service/internal/proxy/proxy.go gives out.
use mathlib.Core.Path.{subst}
use kube_argus.Base.{
  ℕ, ◌+◌, ◌*◌, ◌≤◌, ◌≡◌, refl, sym, ap, ◌∙◌, inl, inr, String, some, [], arith, Result, ok, ltb,
  if◌then◌else◌, Option-cases, Outcome-cases, Bool-cases, text_cases, pos,
}
use kube_argus.Base.Dict.{Dict, lookup, insert, lookup-insert}
use kube_argus.Model.{Token}
use kube_argus.Proxy.{Wiring, CacheEntry, Proxy, refill, token}
use kube_argus.Proxy.Cache.{
  entry, refilled, refill-ok, refill-err, entry-injective, token-hit, token-stale, token-miss,
  ok-same,
}
use kube_argus.Proxy.Start.{ProxySettings, new_proxy, new_proxy-ttl}

module _ (W : Wiring) where
  -- The token was minted for the ServiceAccount, and that was over at the time `at`.
  pub record MintedAt (sa t : String) (at : ℕ) : Type 0 where
    pub world : W.World
    pub minted : Token
    pub mint : (W.mint sa world).0 ≡ ok minted
    pub same : minted.access_token ≡ t
    pub time : W.clock (W.mint sa world).1 ≡ at

  -- Every entry is kept for the time to live after its mint.
  abbrev pub IsKept : ℕ → Dict CacheEntry → Type 0
  IsKept ttl m =
      (sa : String) (e : CacheEntry)
      → lookup sa m ≡ some e
      → (at : ℕ) × MintedAt sa e.token at × (e.exp ≡ at + ttl)

  -- The age of an answer, and the cache after it.
  pub record Ages (ttl : ℕ) (sa : String) (r : Result String String) (p : Proxy) (now : ℕ)
      : Type 0 where
    pub kept : IsKept ttl p.cache
    pub same_ttl : p.ttl ≡ ttl
    pub age : (t : String) → r ≡ ok t → (at : ℕ) × MintedAt sa t at × (now ≤ at + ttl)

  refilled-IsKept :
      (sa : String) (p : Proxy) (w : W.World) (t : Token)
      → (W.mint sa w).0 ≡ ok t
      → IsKept p.ttl p.cache
      → IsKept p.ttl (refilled W sa p w t).cache
  refilled-IsKept sa p w t h s k e l = elim (text_cases sa k) [
    | inl (q, same) ↦
        let found : lookup k (insert sa (entry W sa p w t) p.cache) ≡ some (entry W sa p w t) =
          rw (lookup-insert, q, if◌then◌else◌) refl in
        let new = entry-injective W (entry W sa p w t) e _ found l in
        (
          W.clock (W.mint sa w).1,
          rw⁻¹ same (record {
            world = w;
            minted = t;
            mint = h;
            same = ap (λ (x : CacheEntry). x.token) new;
            time = refl;
          }),
          ap (λ (x : CacheEntry). x.exp) (sym new),
        )
    | inr (q, other) ↦ s k e (rw (lookup-insert, q, if◌then◌else◌) at l)
  ]

  refill-Ages :
      (sa : String) (p : Proxy) (w : W.World)
      → IsKept p.ttl p.cache
      → Ages p.ttl sa
          (refill W sa (p, w)).0
          (refill W sa (p, w)).1.0
          (W.clock (refill W sa (p, w)).1.1)
  refill-Ages sa p w s = elim (Outcome-cases (W.mint sa w).0) [
    | inl (t, h) ↦ rw (refill-ok W sa p w t h) (record {
      kept = refilled-IsKept sa p w t h s;
      same_ttl = refl;
      age = λ x q. (
        W.clock (W.mint sa w).1,
        record {
          world = w;
          minted = t;
          mint = h;
          same = ok-same W t.access_token x q;
          time = refl;
        },
        omega arith,
      );
    })
    | inr (e, h) ↦
        rw (refill-err W sa p w e h)
          (record { kept = s; same_ttl = refl; age = λ x q. ground arith })
  ]

  token-Ages :
      (sa : String) (p : Proxy) (w : W.World)
      → IsKept p.ttl p.cache
      → Ages p.ttl sa
          (token W sa (p, w)).0
          (token W sa (p, w)).1.0
          (W.clock (token W sa (p, w)).1.1)
  token-Ages sa p w s = elim (Option-cases (lookup sa p.cache)) [
    | inl l ↦ rw (token-miss W sa p w l) (refill-Ages sa p w s)
    | inr (e, l) ↦ elim (Bool-cases (ltb (W.clock w) e.exp)) [
      | inr h ↦ rw (token-stale W sa p w e l h) (refill-Ages sa p w s)
      | inl h ↦
          let (at, m, x) = s sa e l in
          rw (token-hit W sa p w e l h) (record {
            kept = s;
            same_ttl = refl;
            age =
                λ t q. (at, subst (λ y. MintedAt sa y at) (ok-same W e.token t q) m, ground arith);
          })
    ]
  ]

  -- The proxies that a start leads to, one request for a token after the other.
  pub data Reaches (s : ProxySettings) : Proxy → Type 0 where
    started : {p : Proxy} → p ≡ new_proxy s → Reaches s p
    asked :
        {p q : Proxy}
        → Reaches s p
        → (sa : String) (w : W.World) → q ≡ (token W sa (p, w)).1.0
        → Reaches s q

  nothing-IsKept : (ttl : ℕ) → IsKept ttl []
  unfolding lookup
  nothing-IsKept ttl sa e l = ground arith

  new_proxy-cache : (s : ProxySettings) → (new_proxy s).cache ≡ []
  unfolding new_proxy
  new_proxy-cache s = refl

  pub reached :
      (s : ProxySettings) (p : Proxy)
      → Reaches s p
      → IsKept p.ttl p.cache × (p.ttl ≡ (new_proxy s).ttl)
  reached s p (started e) =
      subst (λ x. IsKept x.ttl x.cache × (x.ttl ≡ (new_proxy s).ttl)) (sym e)
        (rw (new_proxy-cache s) (nothing-IsKept (new_proxy s).ttl), refl)
  reached s p (asked {p = q} r sa w e) =
      let (kept, ttl) = reached s q r in
      let a = token-Ages sa q w kept in
      subst (λ x. IsKept x.ttl x.cache × (x.ttl ≡ (new_proxy s).ttl)) (sym e)
        (
          subst (λ t. IsKept t (token W sa (q, w)).1.0.cache) (sym a.same_ttl) a.kept,
          a.same_ttl ∙ ttl,
        )

  -- A proxy that asks for tokens of `n` seconds never gives one out, from its cache or new, later than
  -- four fifths of that after it was minted, for the ServiceAccount that was asked for: a fifth of its
  -- life is always left. The bound on `n` is that of a duration.
  pub token-Fresh :
      (s : ProxySettings) (n : ℕ) (p : Proxy) (sa t : String) (w : W.World)
      → s.exp_secs ≡ pos n
      → n ≤ 9_223_372_036
      → Reaches s p
      → (token W sa (p, w)).0 ≡ ok t
      → (at : ℕ) × MintedAt sa t at
        × (5 * W.clock (token W sa (p, w)).1.1 ≤ 5 * at + 4 * (n * 1_000_000_000))
  token-Fresh s n p sa t w e l r h =
      let (kept, ttl) = reached s p r in
      let (at, m, age) = (token-Ages sa p w kept).age t h in
      (at, m, omega (arith, age, ttl, new_proxy-ttl s n e l))
