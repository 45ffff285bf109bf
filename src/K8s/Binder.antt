-- ===== src/K8s/Binder.antt =====
-- `Binder` of service/internal/k8s/bind.go: how a login writes the custom resource, and the wait for the
-- operator. Also `Mint` of service/internal/k8s/token.go.
pub mod Renewal
pub mod Waiting
pub mod Minting
use kube_argus.Base.{
  ℕ, zero, suc, String, ◌<>◌, Option, none, some, List, [], ◌∷◌, Result, ok, err, Exec,
}
use kube_argus.Base.Dict.{insert}
use kube_argus.Model.{Identity, Token}
use kube_argus.Model as Model
use kube_argus.Operator.Types as Types
use kube_argus.Operator.Types.{
  Bind, BindSpec, BindPhase, binded, failed, unset, renewed_at_annotation,
}
use kube_argus.K8s.SanitizeName.{sanitize_name}

-- What the binder and the minter call. `create_or_update` is `controllerutil.CreateOrUpdate`, which
-- runs the function on the stored object, or on the one that it is given if there is none.
-- `format_time` is `Format(time.RFC3339Nano)`, in UTC.
pub record Cluster : Type 1 where
  pub State : Type 0
  pub clock : State → ℕ
  pub get : String → String → Exec State String Bind
  pub create_or_update : Bind → (Bind → Bind) → Exec State String Bind
  pub create_token : String → String → List String → ℕ → Exec State String String
  -- Until the ticker fires: what the others do meanwhile.
  pub pause : State → State
  pub format_time : ℕ → String

pub record Binder : Type 0 where
  pub namespace : String
  pub ttl : String

unfoldable pub to_cr_memberships : List Model.Membership → List Types.Membership
to_cr_memberships [] = []
to_cr_memberships (m ∷ ms) =
    record { gid = m.gid; name = m.name; domain = m.domain } ∷ to_cr_memberships ms

-- A custom resource of which only the name and the namespace are set.
abbrev pub blank : String → String → Bind
blank namespace name = record {
  name = name;
  namespace = namespace;
  uid = "";
  creation = 0;
  deletion = none;
  finalizers = [];
  annotations = [];
  spec = record { ttl = ""; domain = ""; user = ""; memberships = [] };
  status = record { conditions = []; sv = record { ref = ""; status = unset; expires_at = none } };
}

-- The function that `Upsert` gives to `CreateOrUpdate`, with the text of the time.
unfoldable pub renew : Binder → Identity → String → Bind → Bind
renew b id now cr = record cr {
  annotations = insert renewed_at_annotation now cr.annotations;
  spec = record {
    ttl = b.ttl;
    domain = id.domain;
    user = sanitize_name id.email;
    memberships = to_cr_memberships id.groups;
  };
}

-- What one pass of the loop of `WaitBinded` decides from the answer of its Get.
pub data Look : Type 0 where
  settled : Result String (Unit {0}) → Look
  again : Look

abbrev pub of_phase : String → BindPhase → Look
of_phase name binded = settled (ok tt)
of_phase name failed = settled (err ("UserAuthenticationBind " <> (name <> " failed to bind")))
of_phase name _ = again

unfoldable pub look : String → Result String Bind → Look
look name (err e) = settled (err ("get UserAuthenticationBind " <> (name <> (": " <> e))))
look name (ok cr) = of_phase name cr.status.sv.status

module _ (C : Cluster) where
  unfoldable pub upsert : Binder → Identity → Exec C.State String String
  upsert b id s =
      let name = sanitize_name id.email in
      let (r, s') =
        C.create_or_update (blank b.namespace name) (renew b id (C.format_time (C.clock s))) s in
      elim r [
        | err e ↦ (err ("upsert UserAuthenticationBind " <> (name <> (": " <> e))), s')
        | ok _ ↦ (ok name, s')
      ]

  abbrev pub deadline : String → String
  deadline name = "waiting for " <> (name <> " to bind: context deadline exceeded")

  -- The loop of `WaitBinded`. The number is that of the ticks before the context is done, which its
  -- time limit bounds.
  unfoldable pub wait_binded : Binder → String → ℕ → Exec C.State String (Unit {0})
  wait_binded b name zero s =
      let (r, s') = C.get b.namespace name s in
      elim (look name r) [ settled x ↦ (x, s') | again ↦ (err (deadline name), s') ]
  wait_binded b name (suc ticks) s =
      let (r, s') = C.get b.namespace name s in
      elim (look name r) [ settled x ↦ (x, s') | again ↦ wait_binded b name ticks (C.pause s') ]

  -- `Mint`, with the namespace, the audiences and the life of the minter.
  unfoldable pub mint : String → List String → ℕ → String → Exec C.State String Token
  mint namespace audiences expiration_secs sa_name s =
      let (r, s') = C.create_token namespace sa_name audiences expiration_secs s in
      elim r [
        | err e ↦ (err ("tokenrequest for " <> (sa_name <> (": " <> e))), s')
        | ok t ↦ (ok (record { access_token = t; expires_in = expiration_secs }), s')
      ]
