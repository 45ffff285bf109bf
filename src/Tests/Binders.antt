-- ===== src/Tests/Binders.antt =====
-- A login that renews a custom resource, and a wait in which the second Get sees it bound.
use kube_argus.Base.{true, ◌≡◌, ◌↔◌, refl, String, Option, none, some, [], ok, err, Exec}
use kube_argus.Operator.Types.{Bind, binding, binded}
use kube_argus.Operator.Api.{Api}
use kube_argus.K8s.Binder.{Cluster, Binder, blank, look, wait_binded}
use kube_argus.K8s.Binder.Renewal.{with_identity}
use kube_argus.K8s.Binder.Waiting.{BoundBy, wait_binded_iff}
use kube_argus.Tests.Cluster.{server}

abbrev get : String → String → Exec (Option Bind) String Bind
get namespace name none = (err "not found", none)
get namespace name (some cr) = (ok cr, some cr)

-- What the operator does between two Gets.
abbrev bind_it : Option Bind → Option Bind
bind_it none = none
bind_it (some cr) =
    some (record cr { status = record cr.status { sv = record cr.status.sv { status = binded } } })

-- A new object gets a uid.
abbrev put : Bind → (Bind → Bind) → Option Bind → Bind
put b f none = with_identity "sa-1" 5_000_000_000 (f b)
put b f (some cr) = f cr

abbrev pub cluster : Cluster
cluster = record {
  State = Option Bind;
  clock = λ s. 5_000_000_000;
  get = get;
  create_or_update = λ b f s. let cr = put b f s in (ok cr, some cr);
  create_token = λ namespace name audiences life s. (ok "token", s);
  pause = bind_it;
  format_time = λ t. "1970-01-01T00:00:05Z";
}

abbrev operator : Api
operator = record (server true) { parse_rfc3339 = λ s. some 5_000_000_000 }

abbrev pub binder : Binder
binder = record { namespace = "kargus"; ttl = "12h" }

-- There since an earlier login.
abbrev earlier : Bind
earlier = record (blank "kargus" "ann-example-com") { uid = "sa-7"; creation = 1 }

-- Written, and not bound yet.
abbrev waiting : Bind
waiting = record (blank "kargus" "ann") {
  status = record {
    conditions = [];
    sv = record { ref = ""; status = binding; expires_at = none };
  };
}

wait_binded_iff_example :
    ((wait_binded cluster binder "ann" 3 (some waiting)).0 ≡ ok tt)
    ↔ BoundBy cluster binder "ann" 3 (some waiting)
wait_binded_iff_example = wait_binded_iff cluster binder "ann" 3 (some waiting)

waited : (wait_binded cluster binder "ann" 3 (some waiting)).0 ≡ ok tt
unfolding wait_binded look
waited = refl
