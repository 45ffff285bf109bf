-- ===== src/Proxy/Cache.antt =====
-- The token cache of service/internal/proxy/proxy.go: it gives a ServiceAccount only its own tokens.
use mathlib.Core.Path.{subst}
use kube_argus.Base.{
  ◌+◌, ◌≡◌, refl, ap, inl, inr, String, true, false, Option, none, some, arith, Result, ok, err,
  ltb, if◌then◌else◌, Option-cases, Outcome-cases, Bool-cases, text_cases,
}
use kube_argus.Base.Dict.{Dict, lookup, insert, lookup-insert}
use kube_argus.Model.{Token}
use kube_argus.Proxy.{Wiring, CacheEntry, Proxy, refill, token}

module _ (W : Wiring) where
  -- The token was minted for the ServiceAccount, at some time.
  pub record MintedFor (sa t : String) : Type 0 where
    pub world : W.World
    pub minted : Token
    pub mint : (W.mint sa world).0 ≡ ok minted
    pub same : minted.access_token ≡ t

  abbrev pub IsSound : Dict CacheEntry → Type 0
  IsSound m = (sa : String) (e : CacheEntry) → lookup sa m ≡ some e → MintedFor sa e.token

  -- A run of the cache that keeps it sound, and whose token is the ServiceAccount's.
  pub record Serves (sa : String) (r : Result String String) (p : Proxy) : Type 0 where
    pub sound : IsSound p.cache
    pub own : (t : String) → r ≡ ok t → MintedFor sa t

  abbrev pub entry : String → Proxy → W.World → Token → CacheEntry
  entry sa p w t = record { token = t.access_token; exp = W.clock (W.mint sa w).1 + p.ttl }

  abbrev pub refilled : String → Proxy → W.World → Token → Proxy
  refilled sa p w t = record p { cache = insert sa (entry sa p w t) p.cache }

  pub refill-ok :
      (sa : String) (p : Proxy) (w : W.World) (t : Token)
      → (W.mint sa w).0 ≡ ok t
      → refill W sa (p, w) ≡ (ok t.access_token, (refilled sa p w t, (W.mint sa w).1))
  unfolding refill
  refill-ok sa p w t h = ground arith

  pub refill-err :
      (sa : String) (p : Proxy) (w : W.World) (e : String)
      → (W.mint sa w).0 ≡ err e
      → refill W sa (p, w) ≡ (err e, (p, (W.mint sa w).1))
  unfolding refill
  refill-err sa p w e h = ground arith

  pub entry-injective : (a b : CacheEntry) (o : Option CacheEntry) → o ≡ some a → o ≡ some b → a ≡ b
  entry-injective a b o p q = cc

  refilled-IsSound :
      (sa : String) (p : Proxy) (w : W.World) (t : Token)
      → (W.mint sa w).0 ≡ ok t
      → IsSound p.cache
      → IsSound (refilled sa p w t).cache
  refilled-IsSound sa p w t h s k e l = elim (text_cases sa k) [
    | inl (q, same) ↦
        let found : lookup k (insert sa (entry sa p w t) p.cache) ≡ some (entry sa p w t) =
          rw (lookup-insert, q, if◌then◌else◌) refl in
        let new = entry-injective (entry sa p w t) e _ found l in
        record {
          world = w;
          minted = t;
          mint = rw⁻¹ same h;
          same = ap (λ (x : CacheEntry). x.token) new;
        }
    | inr (q, other) ↦ s k e (rw (lookup-insert, q, if◌then◌else◌) at l)
  ]

  refill-Serves :
      (sa : String) (p : Proxy) (w : W.World)
      → IsSound p.cache
      → Serves sa (refill W sa (p, w)).0 (refill W sa (p, w)).1.0
  refill-Serves sa p w s = elim (Outcome-cases (W.mint sa w).0) [
    | inl (t, h) ↦ rw (refill-ok sa p w t h) (record {
      sound = refilled-IsSound sa p w t h s;
      own = λ x q. record { world = w; minted = t; mint = h; same = ground arith };
    })
    | inr (e, h) ↦ rw (refill-err sa p w e h) (record { sound = s; own = λ x q. ground arith })
  ]

  pub token-hit :
      (sa : String) (p : Proxy) (w : W.World) (e : CacheEntry)
      → lookup sa p.cache ≡ some e
      → ltb (W.clock w) e.exp ≡ true
      → token W sa (p, w) ≡ (ok e.token, (p, w))
  unfolding token
  token-hit sa p w e l h = ground arith

  pub token-stale :
      (sa : String) (p : Proxy) (w : W.World) (e : CacheEntry)
      → lookup sa p.cache ≡ some e
      → ltb (W.clock w) e.exp ≡ false
      → token W sa (p, w) ≡ refill W sa (p, w)
  unfolding token
  token-stale sa p w e l h = ground arith

  pub token-miss :
      (sa : String) (p : Proxy) (w : W.World)
      → lookup sa p.cache ≡ none
      → token W sa (p, w) ≡ refill W sa (p, w)
  unfolding token
  token-miss sa p w l = ground arith

  pub ok-same : (x y : String) → ◌≡◌ {A = Result String String} (ok x) (ok y) → x ≡ y
  ok-same x y h = ground arith

  -- The cache stays sound, and its answer is a token that was minted for the ServiceAccount asked for.
  pub token-Serves :
      (sa : String) (p : Proxy) (w : W.World)
      → IsSound p.cache
      → Serves sa (token W sa (p, w)).0 (token W sa (p, w)).1.0
  token-Serves sa p w s = elim (Option-cases (lookup sa p.cache)) [
    | inl l ↦ rw (token-miss sa p w l) (refill-Serves sa p w s)
    | inr (e, l) ↦ elim (Bool-cases (ltb (W.clock w) e.exp)) [
      | inr h ↦ rw (token-stale sa p w e l h) (refill-Serves sa p w s)
      | inl h ↦
          rw (token-hit sa p w e l h) (record {
            sound = s;
            own = λ t q. subst (MintedFor sa) (ok-same e.token t q) (s sa e l);
          })
    ]
  ]
