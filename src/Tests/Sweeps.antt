-- ===== src/Tests/Sweeps.antt =====
-- A code that is saved, swept too early and taken, and one that is swept away before it is taken.
use kube_argus.Base.{ℕ, ◌≡◌, refl, List, [], ◌∷◌, arith, keep_if, ok, err}
use kube_argus.Base.Dict.{lookup, insert, remove}
use kube_argus.Store.Types.{CodeGrant, not_found, fetch}
use kube_argus.Store.Memory.{
  new_memory, save_auth_request, take_auth_request, save_code, take_code, save_refresh,
  take_refresh, sweep_map, sweep_tick,
}
use kube_argus.Store.Memory.Schedule.{sweep_invisible}
use kube_argus.Store.Memory.Events.{
  Event, saved, took_code, saving_code, taking_code, sweeping, step, replies, without_sweeps,
}

abbrev pub grant : CodeGrant
grant = record {
  client_id = "headlamp";
  redirect_uri = "https://h/cb";
  code_challenge = "v";
  nonce = "n";
  subject = "ann@example.com";
  access_token = "sa";
  id_token = "id";
  refresh_token = "rt";
  expires_in = 3600;
}

abbrev schedule : List (ℕ × Event)
schedule =
    (1, saving_code "k" grant 10)
    ∷ (5, sweeping)
    ∷ (6, taking_code "k")
    ∷ (7, saving_code "l" grant 1)
    ∷ (9, sweeping)
    ∷ (9, taking_code "l")
    ∷ []

sweep_invisible_example : replies schedule new_memory ≡ replies (without_sweeps schedule) new_memory
sweep_invisible_example =
    sweep_invisible 0 schedule new_memory (record { auth = tt; codes = tt; refresh = tt })
      (ground arith)

replies_example :
    replies schedule new_memory
    ≡ saved (ok tt) ∷ took_code (ok grant) ∷ saved (ok tt) ∷ took_code (err not_found) ∷ []
unfolding replies step save_auth_request take_auth_request save_code take_code save_refresh
    take_refresh sweep_map sweep_tick insert lookup remove keep_if fetch
replies_example = refl
