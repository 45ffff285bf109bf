-- ===== src/Tests/Races.antt =====
-- The token cache of the proxy: a cached token, and two requests that miss it at once.
use kube_argus.Base.{List, ◌≡◌, refl, [], ◌∷◌, ok, pos}
use kube_argus.Base.Dict.{lookup, insert, remove}
use kube_argus.Config.Environ.{getenv, env, env_int}
use kube_argus.Broker.Steps.{trim_right_slash}
use kube_argus.Proxy.Start.{ProxySettings, settings}
use kube_argus.Proxy.Schedule.{
  Phase, returned, storing, Caller, asking, minting, turn, System, turns, arrives, Reach, init,
  step,
}
use kube_argus.Proxy.Schedule.Owned.{Owned, Reach-Owned}
use kube_argus.Tests.Proxies.{wiring}

abbrev pub ten_minutes : ProxySettings
ten_minutes = record {
  issuer = "https://broker";
  client_id = "kubernetes";
  namespace = "kargus-system";
  listen = ":8443";
  username_claim = "email";
  exp_secs = pos 600;
  cert_file = "";
  key_file = "";
  jwks_url = "https://broker/jwks";
}

read_back :
    settings (("ISSUER", "https://broker/") ∷ ("CLIENT_ID", "kubernetes") ∷ [])
    ≡ ok (record ten_minutes { issuer = "https://broker/" })
unfolding settings getenv env env_int lookup trim_right_slash
read_back = refl

-- Two requests of one user look the cache up before either has minted, and both mint; the first has
-- stored its token, and the second is about to.
abbrev both : System wiring
both = record {
  callers =
      record { sa = "ann"; phase = returned (ok "token of ann") }
      ∷ record { sa = "ann"; phase = storing "token of ann" }
      ∷ [];
  shared = record { cache = ("ann", record { token = "token of ann"; exp = 305 }) ∷ []; world = 5 };
}

abbrev ann : Phase → Caller
ann p = record { sa = "ann"; phase = p }

-- The two callers in these phases, with nothing in the cache.
abbrev uncached : List Caller → System wiring
uncached cs = record { callers = cs; shared = record { cache = []; world = 5 } }

looked_up : Reach wiring 300 (uncached (ann minting ∷ ann minting ∷ []))
unfolding turn lookup
looked_up =
    step
      (step (step (step (init 5 refl) (arrives "ann" refl)) (turns [] (ann asking) [] refl refl))
        (arrives "ann" refl))
      (turns [] (ann asking) (ann minting ∷ []) refl refl)

both_minted :
    Reach wiring 300 (uncached (ann (storing "token of ann") ∷ ann (storing "token of ann") ∷ []))
unfolding turn
both_minted =
    step (step looked_up (turns [] (ann minting) (ann minting ∷ []) refl refl))
      (turns (ann (storing "token of ann") ∷ []) (ann minting) [] refl refl)

both_reached : Reach wiring 300 both
unfolding turn insert remove
both_reached =
    step both_minted
      (turns [] (ann (storing "token of ann")) (ann (storing "token of ann") ∷ []) refl refl)

Reach-Owned_example : Owned wiring both
Reach-Owned_example = Reach-Owned wiring 300 both both_reached
