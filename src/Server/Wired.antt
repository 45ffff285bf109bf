-- ===== src/Server/Wired.antt =====
-- The broker as `run` of service/cmd/server/main.go wires it: the provider of service/internal/idp, and
-- the binder and the minter of service/internal/k8s.
use kube_argus.Base.{ℕ, ◌/◌, String, Bool, List, Result, Exec}
use kube_argus.Config.{Config}
use kube_argus.Idp.Calls.{Wiring}
use kube_argus.Idp.{Provider}
use kube_argus.Idp as Idp
use kube_argus.K8s.Binder.{Cluster, Binder, upsert, wait_binded, mint}
use kube_argus.Broker.Types.{IdClaims}
use kube_argus.Broker.Env.{Env}

-- The rest of what the broker calls.
pub record Rest : Type 1 where
  pub Random : Type 0
  pub rand_token : Random → String × Random
  pub sign : IdClaims → Result String String
  pub s256 : String → String
  pub url_parses : String → Bool
  pub fold : ℕ → ℕ

module _ (W : Wiring) (C : Cluster) (R : Rest) where
  pub record World : Type 0 where
    pub idp : W.World
    pub cluster : C.State
    pub random : R.Random

  abbrev pub at_idp : {A : Type 0} → Exec W.World String A → Exec World String A
  at_idp m w = let (r, i) = m w.idp in (r, record w { idp = i })

  abbrev pub at_cluster : {A : Type 0} → Exec C.State String A → Exec World String A
  at_cluster m w = let (r, s) = m w.cluster in (r, record w { cluster = s })

  -- `NewBinder` with 15 seconds for a wait, which are `ticks` ticks, and `NewMinter` with the
  -- lifetime in whole seconds.
  abbrev pub wired : Provider W → Binder → List String → ℕ → Config → Env
  wired p b audiences ticks c = record {
    World = World;
    clock = λ w. C.clock w.cluster;
    rand_token = λ w. let (t, r) = R.rand_token w.random in (t, record w { random = r });
    auth_url = Idp.auth_url W p;
    authenticate = λ code nonce. at_idp (Idp.authenticate W p code nonce);
    upsert = λ id. at_cluster (upsert C b id);
    wait_binded = λ name. at_cluster (wait_binded C b name ticks);
    mint =
        λ name. at_cluster (mint C b.namespace audiences (c.token_lifetime / 1_000_000_000) name);
    sign = R.sign;
    s256 = R.s256;
    url_parses = R.url_parses;
    fold = R.fold;
  }
