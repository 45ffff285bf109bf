-- ===== src/Broker/Session.antt =====
-- The calls that the handlers of service/internal/broker/handlers.go make in turn: of the store, and of
-- what the broker is wired to.
use kube_argus.Base.{ℕ, String, ◌<>◌}
use kube_argus.Base.{Result, ok, err, Exec}
use kube_argus.Store.Types.{StoreError, not_found, backend}
use kube_argus.Store.Contract.{Store}
use kube_argus.Broker.Env.{Env}

-- The state that a handler changes: the store, and what the broker is wired to.
pub record State (S : Store) (E : Env) : Type 0 where
  pub store : S.State
  pub world : E.World

-- The errors of the store and of `issueTokens` are only logged.
abbrev pub text_of_error : StoreError → String
text_of_error not_found = "store: not found"
text_of_error (backend e) = e

module _ (S : Store) (E : Env) where
  -- A call of the store, at the time of the clock.
  abbrev pub stored : {A : Type 0} → (ℕ → Exec S.State StoreError A) → Exec (State S E) StoreError A
  stored m st = let (r, s) = m (E.clock st.world) st.store in (r, record st { store = s })

  abbrev pub outside : {A : Type 0} → Exec E.World String A → Exec (State S E) String A
  outside m st = let (r, w) = m st.world in (r, record st { world = w })

  abbrev pub random : State S E → String × State S E
  random st = let (t, w) = E.rand_token st.world in (t, record st { world = w })

  -- `return issued{}, fmt.Errorf(doing + ": %w", err)` if the call failed.
  abbrev pub or_fail :
      {A B : Type 0}
      → String
      → Result String A
      → (A → Exec (State S E) String B)
      → Exec (State S E) String B
  or_fail doing (ok a) f st = f a st
  or_fail doing (err e) f st = (err (doing <> (": " <> e)), st)
