-- ===== src/Store/Memory.antt =====
-- `memory` of service/internal/store/memory.go. A method holds the mutex throughout, so it is one
-- step from a state to the next.
pub mod Laws
pub mod Sweep
pub mod Events
pub mod Schedule
use kube_argus.Base.{ℕ, ◌+◌, String, Bool, true, false, not, Option, none, some, List, [], ◌∷◌}
use kube_argus.Base.{Result, ok, err, Exec, ltb, if◌then◌else◌, keep_if}
use kube_argus.Base.Dict.{Dict, lookup, insert, remove}
use kube_argus.Store.Types.{AuthRequest, CodeGrant, RefreshGrant, StoreError, Entry, fetch}

-- `stopped` is whether `stopCh` is closed.
pub record Memory : Type 0 where
  pub auth : Dict (Entry AuthRequest)
  pub codes : Dict (Entry CodeGrant)
  pub refresh : Dict (Entry RefreshGrant)
  pub stopped : Bool

abbrev pub new_memory : Memory
new_memory = record { auth = []; codes = []; refresh = []; stopped = false }

unfoldable pub save_auth_request : ℕ → String → AuthRequest → ℕ → Exec Memory StoreError (Unit {0})
save_auth_request now key ar ttl m =
    (ok tt, record m { auth = insert key (record { val = ar; exp = now + ttl }) m.auth })

unfoldable pub take_auth_request : ℕ → String → Exec Memory StoreError AuthRequest
take_auth_request now key m =
    let e = lookup key m.auth in (fetch now e, record m { auth = remove key m.auth })

unfoldable pub save_code : ℕ → String → CodeGrant → ℕ → Exec Memory StoreError (Unit {0})
save_code now code g ttl m =
    (ok tt, record m { codes = insert code (record { val = g; exp = now + ttl }) m.codes })

unfoldable pub take_code : ℕ → String → Exec Memory StoreError CodeGrant
take_code now code m =
    let e = lookup code m.codes in (fetch now e, record m { codes = remove code m.codes })

unfoldable pub save_refresh : ℕ → String → RefreshGrant → ℕ → Exec Memory StoreError (Unit {0})
save_refresh now token g ttl m =
    (ok tt, record m { refresh = insert token (record { val = g; exp = now + ttl }) m.refresh })

unfoldable pub take_refresh : ℕ → String → Exec Memory StoreError RefreshGrant
take_refresh now token m =
    let e = lookup token m.refresh in (fetch now e, record m { refresh = remove token m.refresh })

-- `close(m.stopCh)`: a second close of the channel panics, which is `none`.
unfoldable pub close : Memory → Option Memory
close m = if m.stopped then none else some (record m { stopped = true })

-- `for k, e := range m.auth { if now.After(e.exp) { delete(m.auth, k) } }`
unfoldable pub sweep_map : {V : Type 0} → ℕ → Dict (Entry V) → Dict (Entry V)
sweep_map now m = keep_if (λ (_, e). not (ltb e.exp now)) m

-- The body of the loop of `sweep`, at a tick of the clock.
unfoldable pub sweep_tick : ℕ → Memory → Memory
unfolding sweep_map
sweep_tick now m = record m {
  auth = sweep_map now m.auth;
  codes = sweep_map now m.codes;
  refresh = sweep_map now m.refresh;
}
