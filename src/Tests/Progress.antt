-- ===== src/Tests/Progress.antt =====
-- A bind that has just been written, at its first reconcile. An Update keeps the status of the stored
-- object, and a patch of the status keeps the rest.
use mathlib.Core.Logic.{ite}
use kube_argus.Base.{
  ◌≡◌, ◌<◌, refl, String, true, false, Bool, Option, none, some, [], ok, err, Exec, arith, some_of,
  Result, ap, ◌≢◌,
}
use kube_argus.Base.Dict.{lookup}
use kube_argus.Operator.Types.{Bind, BindPhase-discrete, unset, binded, failed}
use kube_argus.Operator.Api.{Api, ApiError, not_found, World}
use kube_argus.Operator.Sync.{named}
use kube_argus.Operator.Steps.{has_finalizer, done}
use kube_argus.Operator.Reconcile.{reconcile, reconcile_read, expiry_of, anchor}
use kube_argus.Operator.Reconcile.Settle.{IsMergePatch}
use kube_argus.Operator.Reconcile.Progress.{IsBindStore, Stage, left, reconcile_nearer}
use kube_argus.Operator.Reconcile.Stages.{to_go}
use kube_argus.K8s.Binder.{blank}
use kube_argus.Tests.Cluster.{server, crb_laws, rb_laws, phase_of}

abbrev update : Bind → Exec (Option Bind) ApiError Bind
update b none = (err not_found, none)
update b (some c) = let m = record b { status = c.status } in (ok m, some m)

abbrev merged : Bind → Bind → Bind → Bind
merged orig new c = record c {
  namespace = new.namespace;
  name = new.name;
  status = record new.status {
    sv = record new.status.sv {
      status =
          ite (BindPhase-discrete orig.status.sv.status new.status.sv.status) c.status.sv.status
            new.status.sv.status;
    };
  };
}

abbrev patch_status : Bind → Bind → Exec (Option Bind) ApiError Bind
patch_status orig new none = (err not_found, none)
patch_status orig new (some c) = let m = merged orig new c in (ok m, some m)

abbrev pub api : Api
api = record (server true) { update = update; patch_status = patch_status }

pub merge_laws : IsMergePatch api (crb_laws true) (rb_laws true)
merge_laws = record {
  phase = phase_of;
  patched = λ orig new b s h. patched orig new b s h;
  named_alike = λ orig new b s h. named_alike orig new b s h;
}
  where
    patched :
        (orig new b : Bind) (s : Option Bind)
        → (patch_status orig new s).0 ≡ ok b
        → phase_of (patch_status orig new s).1 new.namespace new.name
          ≡ ite
              (BindPhase-discrete orig.status.sv.status new.status.sv.status)
              (phase_of s new.namespace new.name)
              new.status.sv.status
    patched orig new b none h = ground arith
    patched orig new b (some c) h = refl

    named_alike :
        (orig new b : Bind) (s : Option Bind)
        → (patch_status orig new s).0 ≡ ok b
        → (b.namespace ≡ new.namespace) × (b.name ≡ new.name)
    named_alike orig new b none h = ground arith
    named_alike orig new b (some c) h = ground arith

ok-same : (b c : Bind) → ◌≡◌ {A = Result ApiError Bind} (ok b) (ok c) → b ≡ c
ok-same b c h = ground arith

pub unset≢binded : unset ≢ binded
unset≢binded = ground arith

pub unset≢failed : unset ≢ failed
unset≢failed = ground arith

guarded_of : Option Bind → String → String → Bool
guarded_of none namespace name = false
guarded_of (some b) namespace name = has_finalizer b

pub bind_laws : IsBindStore api (crb_laws true) (rb_laws true) merge_laws
unfolding merge_laws has_finalizer guarded_of
bind_laws = record {
  guarded = guarded_of;
  looked = λ namespace name s. looked namespace name s;
  read = λ b s g. read b s g;
  updated = λ b b' s h. updated b b' s h;
  patched = λ orig new b s h. patched orig new b s h;
}
  where
    looked :
        (namespace name : String) (s : Option Bind)
        → (guarded_of (api.get namespace name s).1 namespace name ≡ guarded_of s namespace name)
          × (phase_of (api.get namespace name s).1 namespace name ≡ phase_of s namespace name)
    looked namespace name none = (refl, refl)
    looked namespace name (some b) = (refl, refl)

    read :
        (b : Bind) (s : Option Bind)
        → (api.get b.namespace b.name s).0 ≡ ok b
        → (guarded_of (api.get b.namespace b.name s).1 b.namespace b.name ≡ has_finalizer b)
          × (phase_of (api.get b.namespace b.name s).1 b.namespace b.name ≡ b.status.sv.status)
    read b none h = ground arith
    read b (some c) h =
        let e = ok-same c b h in (ap has_finalizer e, ap (λ (x : Bind). x.status.sv.status) e)

    updated :
        (b b' : Bind) (s : Option Bind)
        → (update b s).0 ≡ ok b'
        → (guarded_of (update b s).1 b.namespace b.name ≡ has_finalizer b)
          × (phase_of (update b s).1 b.namespace b.name ≡ phase_of s b.namespace b.name)
    updated b b' none h = ground arith
    updated b b' (some c) h = (refl, refl)

    patched :
        (orig new b : Bind) (s : Option Bind)
        → (patch_status orig new s).0 ≡ ok b
        → guarded_of (patch_status orig new s).1 new.namespace new.name
          ≡ guarded_of s new.namespace new.name
    patched orig new b none h = ground arith
    patched orig new b (some c) h = refl

-- Just written by a login: no finalizer, and no phase yet.
abbrev pub fresh : Bind
fresh = blank "kargus" "ann"

abbrev pub world : World api
world = record {
  binds = some fresh;
  accounts = tt;
  cluster_roles = [];
  roles = [];
  crbs = [];
  rbs = [];
}

reconcile_nearer_example :
    Stage api
      (crb_laws true)
      (rb_laws true)
      merge_laws
      bind_laws
      fresh
      (reconcile api 5 6 "kargus" "ann" world).1
    × (left api
          (crb_laws true)
          (rb_laws true)
          merge_laws
          bind_laws
          fresh
          (reconcile api 5 6 "kargus" "ann" world).1
        < to_go (has_finalizer fresh) unset)
unfolding reconcile reconcile_read has_finalizer some_of expiry_of anchor lookup named
reconcile_nearer_example =
    reconcile_nearer api (crb_laws true) (rb_laws true) merge_laws bind_laws 5 6 world fresh
      3_600_000_000_000 done refl refl refl (omega arith) unset≢binded unset≢failed refl
