-- ===== src/Store/Memory/Schedule.antt =====
-- The methods of the store and the sweep, interleaved in any order at times that do not go back.
-- The mutex makes each of them one step.
use kube_argus.Base.{ℕ, ◌≤◌, ◌≡◌, refl, ap, String, List, [], ◌∷◌, ◌++◌}
use mathlib.Core.Path.{ap₂}
use native.Mathlib.Nat.{le_refl}
use kube_argus.Base.Dict.{Dict, insert-NodupKeys, remove-NodupKeys, NodupKeys}
use kube_argus.Store.Types.{AuthRequest, CodeGrant, RefreshGrant, Entry}
use kube_argus.Store.Memory.{Memory, sweep_tick}
use kube_argus.Store.Memory.Sweep.{
  Agree, sweep_map-NodupKeys, sweep_map-Agree, Agree-later, insert-Agree, remove-Agree,
}
use kube_argus.Store.Memory.Events.{
  Event, saving_auth, taking_auth, saving_code, taking_code, saving_refresh, taking_refresh,
  sweeping, took_auth, took_code, took_refresh, step, replies, without_sweeps, IsOrdered,
}

pub record IsMap (m : Memory) : Type 0 where
  pub auth : NodupKeys m.auth
  pub codes : NodupKeys m.codes
  pub refresh : NodupKeys m.refresh

record Same (now : ℕ) (m n : Memory) : Type 0 where
  auth : Agree now m.auth n.auth
  codes : Agree now m.codes n.codes
  refresh : Agree now m.refresh n.refresh

Same-later : (now later : ℕ) (m n : Memory) → now ≤ later → Same now m n → Same later m n
Same-later now later m n h s = record {
  auth = Agree-later now later m.auth n.auth h s.auth;
  codes = Agree-later now later m.codes n.codes h s.codes;
  refresh = Agree-later now later m.refresh n.refresh h s.refresh;
}

step-IsMap : (now : ℕ) (e : Event) (m : Memory) → IsMap m → IsMap (step now e m).1
unfolding step
step-IsMap now (saving_auth k v ttl) m u = record {
  auth = insert-NodupKeys k _ m.auth u.auth;
  codes = u.codes;
  refresh = u.refresh;
}
step-IsMap now (taking_auth k) m u = record {
  auth = remove-NodupKeys k m.auth u.auth;
  codes = u.codes;
  refresh = u.refresh;
}
step-IsMap now (saving_code k v ttl) m u = record {
  auth = u.auth;
  codes = insert-NodupKeys k _ m.codes u.codes;
  refresh = u.refresh;
}
step-IsMap now (taking_code k) m u = record {
  auth = u.auth;
  codes = remove-NodupKeys k m.codes u.codes;
  refresh = u.refresh;
}
step-IsMap now (saving_refresh k v ttl) m u = record {
  auth = u.auth;
  codes = u.codes;
  refresh = insert-NodupKeys k _ m.refresh u.refresh;
}
step-IsMap now (taking_refresh k) m u = record {
  auth = u.auth;
  codes = u.codes;
  refresh = remove-NodupKeys k m.refresh u.refresh;
}
step-IsMap now sweeping m u = record {
  auth = sweep_map-NodupKeys now m.auth u.auth;
  codes = sweep_map-NodupKeys now m.codes u.codes;
  refresh = sweep_map-NodupKeys now m.refresh u.refresh;
}

-- A sweep of the left state alone.
sweep-Same : (now : ℕ) (m n : Memory) → IsMap m → Same now m n → Same now (sweep_tick now m) n
unfolding sweep_tick
sweep-Same now m n u s = record {
  auth = sweep_map-Agree now m.auth n.auth u.auth s.auth;
  codes = sweep_map-Agree now m.codes n.codes u.codes s.codes;
  refresh = sweep_map-Agree now m.refresh n.refresh u.refresh s.refresh;
}

-- A call gets the same reply from two states that answer alike, and leaves them so.
abbrev SameStep : ℕ → Event → Memory → Memory → Type 0
SameStep now e m n =
    ((step now e m).0 ≡ (step now e n).0) × Same now (step now e m).1 (step now e n).1

module _ (now : ℕ) (m n : Memory) (s : Same now m n) where
  with_auth :
      (d f : Dict (Entry AuthRequest))
      → Agree now d f
      → Same now (record m { auth = d }) (record n { auth = f })
  with_auth d f a = record { auth = a; codes = s.codes; refresh = s.refresh }

  with_codes :
      (d f : Dict (Entry CodeGrant))
      → Agree now d f
      → Same now (record m { codes = d }) (record n { codes = f })
  with_codes d f a = record { auth = s.auth; codes = a; refresh = s.refresh }

  with_refresh :
      (d f : Dict (Entry RefreshGrant))
      → Agree now d f
      → Same now (record m { refresh = d }) (record n { refresh = f })
  with_refresh d f a = record { auth = s.auth; codes = s.codes; refresh = a }

  step_saving_auth :
      (k : String) (v : AuthRequest) (ttl : ℕ) → SameStep now (saving_auth k v ttl) m n
  unfolding step
  step_saving_auth k v ttl = (refl, with_auth _ _ (insert-Agree now k _ m.auth n.auth s.auth))

  step_taking_auth : (k : String) → SameStep now (taking_auth k) m n
  unfolding step
  step_taking_auth k = (
    ap (λ r. took_auth r ∷ []) (s.auth now k (le_refl now)),
    with_auth _ _ (remove-Agree now k m.auth n.auth s.auth),
  )

  step_saving_code : (k : String) (v : CodeGrant) (ttl : ℕ) → SameStep now (saving_code k v ttl) m n
  unfolding step
  step_saving_code k v ttl = (refl, with_codes _ _ (insert-Agree now k _ m.codes n.codes s.codes))

  step_taking_code : (k : String) → SameStep now (taking_code k) m n
  unfolding step
  step_taking_code k = (
    ap (λ r. took_code r ∷ []) (s.codes now k (le_refl now)),
    with_codes _ _ (remove-Agree now k m.codes n.codes s.codes),
  )

  step_saving_refresh :
      (k : String) (v : RefreshGrant) (ttl : ℕ) → SameStep now (saving_refresh k v ttl) m n
  unfolding step
  step_saving_refresh k v ttl =
      (refl, with_refresh _ _ (insert-Agree now k _ m.refresh n.refresh s.refresh))

  step_taking_refresh : (k : String) → SameStep now (taking_refresh k) m n
  unfolding step
  step_taking_refresh k = (
    ap (λ r. took_refresh r ∷ []) (s.refresh now k (le_refl now)),
    with_refresh _ _ (remove-Agree now k m.refresh n.refresh s.refresh),
  )

step-sweeping : (now : ℕ) (m : Memory) → step now sweeping m ≡ ([], sweep_tick now m)
unfolding step
step-sweeping now m = refl

sweep_tick-IsMap : (now : ℕ) (m : Memory) → IsMap m → IsMap (sweep_tick now m)
unfolding step
sweep_tick-IsMap now m u = step-IsMap now sweeping m u

replies_from :
    (start : ℕ) (es : List (ℕ × Event)) (m n : Memory)
    → Same start m n
    → IsMap m
    → IsOrdered start es
    → replies es m ≡ replies (without_sweeps es) n
unfolding replies
replies_from start [] m n s u o = refl
replies_from start ((now, sweeping) ∷ es) m n s u (h, o) = rw step-sweeping (
    replies_from now es (sweep_tick now m) n (sweep-Same now m n u (Same-later start now m n h s))
      (sweep_tick-IsMap now m u) o)
replies_from start ((now, saving_auth k v ttl) ∷ es) m n s u (h, o) =
    let e = saving_auth k v ttl in
    let (same, t) = step_saving_auth now m n (Same-later start now m n h s) k v ttl in
    ap₂ ◌++◌ same (replies_from now es (step now e m).1 (step now e n).1 t (step-IsMap now e m u) o)
replies_from start ((now, taking_auth k) ∷ es) m n s u (h, o) =
    let e = taking_auth k in
    let (same, t) = step_taking_auth now m n (Same-later start now m n h s) k in
    ap₂ ◌++◌ same (replies_from now es (step now e m).1 (step now e n).1 t (step-IsMap now e m u) o)
replies_from start ((now, saving_code k v ttl) ∷ es) m n s u (h, o) =
    let e = saving_code k v ttl in
    let (same, t) = step_saving_code now m n (Same-later start now m n h s) k v ttl in
    ap₂ ◌++◌ same (replies_from now es (step now e m).1 (step now e n).1 t (step-IsMap now e m u) o)
replies_from start ((now, taking_code k) ∷ es) m n s u (h, o) =
    let e = taking_code k in
    let (same, t) = step_taking_code now m n (Same-later start now m n h s) k in
    ap₂ ◌++◌ same (replies_from now es (step now e m).1 (step now e n).1 t (step-IsMap now e m u) o)
replies_from start ((now, saving_refresh k v ttl) ∷ es) m n s u (h, o) =
    let e = saving_refresh k v ttl in
    let (same, t) = step_saving_refresh now m n (Same-later start now m n h s) k v ttl in
    ap₂ ◌++◌ same (replies_from now es (step now e m).1 (step now e n).1 t (step-IsMap now e m u) o)
replies_from start ((now, taking_refresh k) ∷ es) m n s u (h, o) =
    let e = taking_refresh k in
    let (same, t) = step_taking_refresh now m n (Same-later start now m n h s) k in
    ap₂ ◌++◌ same (replies_from now es (step now e m).1 (step now e n).1 t (step-IsMap now e m u) o)

-- Whatever the calls and the sweeps between them, at times that do not go back, every call gets the
-- reply that it would get if the store were never swept. The store starts as Go maps, with no key
-- twice.
pub sweep_invisible :
    (start : ℕ) (es : List (ℕ × Event)) (m : Memory)
    → IsMap m
    → IsOrdered start es
    → replies es m ≡ replies (without_sweeps es) m
sweep_invisible start es m u o =
    replies_from start es m m
      (record { auth = λ t k _. refl; codes = λ t k _. refl; refresh = λ t k _. refl }) u o
