-- ===== src/Store/Memory/Events.antt =====
-- The calls of the store of service/internal/store/memory.go and the ticks of its sweep, as events at
-- times.
use kube_argus.Base.{ℕ, ◌≤◌, String, List, [], ◌∷◌, ◌++◌, Result}
use kube_argus.Store.Types.{AuthRequest, CodeGrant, RefreshGrant, StoreError}
use kube_argus.Store.Memory.{
  Memory, save_auth_request, take_auth_request, save_code, take_code, save_refresh, take_refresh,
  sweep_tick,
}

-- A call of the store, or a tick of the sweep's clock.
pub data Event : Type 0 where
  saving_auth : String → AuthRequest → ℕ → Event
  taking_auth : String → Event
  saving_code : String → CodeGrant → ℕ → Event
  taking_code : String → Event
  saving_refresh : String → RefreshGrant → ℕ → Event
  taking_refresh : String → Event
  sweeping : Event

pub data Reply : Type 0 where
  saved : Result StoreError (Unit {0}) → Reply
  took_auth : Result StoreError AuthRequest → Reply
  took_code : Result StoreError CodeGrant → Reply
  took_refresh : Result StoreError RefreshGrant → Reply

-- The replies of one event at a time, and the state after it. A sweep replies to nobody.
unfoldable pub step : ℕ → Event → Memory → List Reply × Memory
unfolding save_auth_request take_auth_request save_code take_code save_refresh take_refresh
    sweep_tick
step now (saving_auth k v ttl) m = let (r, n) = save_auth_request now k v ttl m in (saved r ∷ [], n)
step now (taking_auth k) m = let (r, n) = take_auth_request now k m in (took_auth r ∷ [], n)
step now (saving_code k v ttl) m = let (r, n) = save_code now k v ttl m in (saved r ∷ [], n)
step now (taking_code k) m = let (r, n) = take_code now k m in (took_code r ∷ [], n)
step now (saving_refresh k v ttl) m = let (r, n) = save_refresh now k v ttl m in (saved r ∷ [], n)
step now (taking_refresh k) m = let (r, n) = take_refresh now k m in (took_refresh r ∷ [], n)
step now sweeping m = ([], sweep_tick now m)

-- All replies of a schedule: the times and the events.
unfoldable pub replies : List (ℕ × Event) → Memory → List Reply
replies [] m = []
replies ((now, e) ∷ es) m = let (r, n) = step now e m in r ++ replies es n

abbrev pub without_sweeps : List (ℕ × Event) → List (ℕ × Event)
without_sweeps [] = []
without_sweeps ((now, sweeping) ∷ es) = without_sweeps es
without_sweeps ((now, e) ∷ es) = (now, e) ∷ without_sweeps es

-- The clock does not go back.
abbrev pub IsOrdered : ℕ → List (ℕ × Event) → Type 0
IsOrdered start [] = Unit
IsOrdered start ((now, e) ∷ es) = (start ≤ now) × IsOrdered now es
