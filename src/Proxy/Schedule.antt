-- ===== src/Proxy/Schedule.antt =====
-- Requests that ask the token cache of service/internal/proxy/proxy.go at once. The mutex makes the lookup one
-- step and the insertion another; the mint between them runs without it, and any other request may come
-- in between.
pub mod Owned
use kube_argus.Base.{
  ℕ, ◌+◌, ◌≤◌, String, ◌≡◌, Option, none, some, List, [], ◌∷◌, ◌++◌, Result, ok, err, if◌then◌else◌,
  ltb,
}
use kube_argus.Base.Dict.{Dict, lookup, insert}
use kube_argus.Model.{Token}
use kube_argus.Proxy.{Wiring, CacheEntry}

-- Where a call of `token` stands: before the lookup, before the mint, before the insertion, returned.
pub data Phase : Type 0 where
  asking : Phase
  minting : Phase
  storing : String → Phase
  returned : Result String String → Phase

pub record Caller : Type 0 where
  pub sa : String
  pub phase : Phase

module _ (W : Wiring) where
  -- What the callers share.
  pub record Shared : Type 0 where
    pub cache : Dict CacheEntry
    pub world : W.World

  abbrev pub after_lookup : ℕ → Option CacheEntry → Phase
  after_lookup now none = minting
  after_lookup now (some e) = if ltb now e.exp then returned (ok e.token) else minting

  abbrev pub after_mint : Result String Token → Phase
  after_mint (err e) = returned (err e)
  after_mint (ok t) = storing t.access_token

  -- The next step of one caller, with the time to live of the cache.
  unfoldable pub turn : ℕ → String → Phase → Shared → Phase × Shared
  turn ttl sa asking s = (after_lookup (W.clock s.world) (lookup sa s.cache), s)
  turn ttl sa minting s = let (r, w) = W.mint sa s.world in (after_mint r, record s { world = w })
  turn ttl sa (storing t) s = (
    returned (ok t),
    record s { cache = insert sa (record { token = t; exp = W.clock s.world + ttl }) s.cache },
  )
  turn ttl sa (returned r) s = (returned r, s)

  pub record System : Type 0 where
    pub callers : List Caller
    pub shared : Shared

  -- One step of the whole: a caller takes its turn, a request comes in, or something else happens.
  pub data Step (ttl : ℕ) (s : System) : System → Type 0 where
    turns :
        {u : System} (before : List Caller) (c : Caller) (after : List Caller)
        → s.callers ≡ before ++ (c ∷ after)
        → u ≡ record {
          callers = before ++ (record c { phase = (turn ttl c.sa c.phase s.shared).0 } ∷ after);
          shared = (turn ttl c.sa c.phase s.shared).1;
        }
        → Step ttl s u
    arrives :
        {u : System} (sa : String)
        → u ≡ record s { callers = record { sa = sa; phase = asking } ∷ s.callers }
        → Step ttl s u
    elsewhere :
        {u : System} (w : W.World)
        → u ≡ record s { shared = record s.shared { world = w } }
        → Step ttl s u

  -- From an empty cache and no request.
  pub data Reach (ttl : ℕ) : System → Type 0 where
    init :
        {s : System} (w : W.World)
        → s ≡ record { callers = []; shared = record { cache = []; world = w } }
        → Reach ttl s
    step : {s u : System} → Reach ttl s → Step ttl s u → Reach ttl u
