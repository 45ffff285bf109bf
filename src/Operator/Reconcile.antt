-- ===== src/Operator/Reconcile.antt =====
-- `Reconcile` of operator/internal/controller/userauthenticationbind_controller.go, a function for
-- each stretch between two of its returns. The two readings of the clock are arguments: `now` at the
-- test of the expiry, and `later` at the end, in `time.Until`.
pub mod Reads
pub mod Revoke
pub mod Grant
pub mod Bound
pub mod Ends
pub mod Settle
pub mod Stale
pub mod Phases
pub mod Stages
pub mod Progress
pub mod Rounds
use kube_argus.Base.{ℕ, ◌+◌, ◌*◌, ◌/◌, String, ◌<>◌, Bool, true, false, ◌==◌, ◌&&◌}
use kube_argus.Base.{Option, none, some, Result, ok, err, Exec, continue}
use kube_argus.Base.{if◌then◌else◌, leb, nat_eq, length, decimal, pos, sub_ℕ}
use kube_argus.Base.Dict.{lookup}
use kube_argus.Operator.Types.{
  Bind, BindPhase, pending, binding, binded, unbound, failed, is_true, is_false, is_unknown,
  ServiceAccount, renewed_at_annotation,
}
use kube_argus.Operator.Api.{Api, World}
use kube_argus.Operator.Sync.{Failure, is_not_found}
use kube_argus.Operator.Steps.{
  Requeue, done, second, is_unset, is_binded, is_unbound, has_finalizer, add_finalizer, on_binds,
  call, update_phase, returning, delete_owned, reconcile_delete, ensure_service_account,
  sync_bindings,
}

module _ (A : Api) where
  -- The renewal stamp if it is there and is a time, or else the creation.
  abbrev pub anchor_at : ℕ → Option ℕ → ℕ
  anchor_at creation none = creation
  anchor_at creation (some t) = t

  unfoldable pub anchor : Bind → ℕ
  unfolding lookup
  anchor b = elim (lookup renewed_at_annotation b.annotations) [
    | none ↦ b.creation
    | some v ↦ if v == "" then b.creation else anchor_at b.creation (A.parse_rfc3339 v)
  ]

  -- `anchor.Add(ttl).Truncate(time.Second)`
  unfoldable pub expiry_of : Bind → ℕ → ℕ
  expiry_of b ttl = (anchor b + ttl) / second * second

  abbrev pub is_at : Option ℕ → ℕ → Bool
  is_at none t = false
  is_at (some e) t = nat_eq e t

  -- `established`
  unfoldable pub is_established : BindPhase → Bind → String → ℕ → Bool
  is_established prev b ref expiry =
      is_binded prev && (b.status.sv.ref == ref && is_at b.status.sv.expires_at expiry)

  abbrev pub with_ref : Bind → String → Bind
  with_ref b ref = record b {
    status = record (b.status) { sv = record (b.status.sv) { ref = ref } };
  }

  abbrev pub with_expiry : Bind → ℕ → Bind
  with_expiry b expiry = record b {
    status = record (b.status) { sv = record (b.status.sv) { expires_at = some expiry } };
  }

  unfoldable pub bound_message : Bind → String
  unfolding decimal
  bound_message b =
      "User "
      <> (b.spec.user
          <> (" bound for " <> (decimal (length b.spec.memberships) <> " membership(s)")))

  -- The end of the function, from `established` on.
  unfoldable pub converge :
      ℕ → BindPhase → Bind → Bind → ServiceAccount → ℕ → Exec (World A) Failure Requeue
  converge later prev orig b sa expiry w =
      let q : Requeue = record { after = sub_ℕ expiry later } in
      elim (is_established prev b sa.uid expiry) [
        | true ↦ (ok q, w)
        | false ↦
            returning A q
              (update_phase A orig (with_expiry (with_ref b sa.uid) expiry) binded is_true "Bound"
                (bound_message b))
              w
      ]

  -- `return ctrl.Result{}, r.updatePhase(ctx, orig, &bind, BindFailed, ...)`
  unfoldable pub fail : Bind → Bind → String → Failure → Exec (World A) Failure Requeue
  fail orig b reason f =
      returning A done (update_phase A orig b failed is_false reason (A.error_text f.doing f.cause))

  -- From `syncBindings` on.
  unfoldable pub sync_and_converge :
      ℕ → BindPhase → Bind → Bind → ServiceAccount → ℕ → Exec (World A) Failure Requeue
  sync_and_converge later prev orig b sa expiry w =
      let (r, w') = sync_bindings A b sa w in
      elim r [
        | err f ↦ fail orig b "BindFailed" f w'
        | ok _ ↦ converge later prev orig b sa expiry w'
      ]

  -- From `ensureServiceAccount` on; `prevStatus` is the phase as read.
  unfoldable pub establish : ℕ → Bind → ℕ → Exec (World A) Failure Requeue
  establish later b expiry w =
      let prev = b.status.sv.status in
      let (r, w') = ensure_service_account A b w in
      elim r [
        | err f ↦ fail b b "ServiceAccountFailed" f w'
        | ok sa ↦ elim (is_binded prev) [
          | true ↦ sync_and_converge later prev b b sa expiry w'
          | false ↦
              let (p, w'') =
                update_phase A b (with_ref b sa.uid) binding is_unknown "Syncing"
                  "Syncing RBAC bindings" w' in
              continue p (λ b'. sync_and_converge later prev b b' sa expiry) w''
        ]
      ]

  -- The stretch for an expired bind.
  unfoldable pub expire : Bind → Exec (World A) Failure Requeue
  expire b w = elim (is_unbound b.status.sv.status) [
    | true ↦ (ok done, w)
    | false ↦
        let (r, w') = delete_owned A b.uid w in
        continue r
          (λ _. returning A done (update_phase A b b unbound is_false "Expired" "TTL elapsed")) w'
  ]

  -- From the parse of the TTL on.
  unfoldable pub reconcile_live : ℕ → ℕ → Bind → Exec (World A) Failure Requeue
  reconcile_live now later b w = elim (A.parse_duration b.spec.ttl) [
    | err text ↦ returning A done (update_phase A b b failed is_false "InvalidTTL" text) w
    | ok ttl ↦
        let expiry = expiry_of b ttl in
        elim (leb expiry now) [ true ↦ expire b w | false ↦ establish later b expiry w ]
  ]

  -- From the test of the deletion timestamp on, with the object that was read.
  unfoldable pub reconcile_read : ℕ → ℕ → Bind → Exec (World A) Failure Requeue
  reconcile_read now later b w = elim b.deletion [
    | some _ ↦ reconcile_delete A b w
    | none ↦ elim (has_finalizer b) [
      | false ↦
          returning A done (on_binds A (call A "adding finalizer" (A.update (add_finalizer b)))) w
      | true ↦ elim (is_unset b.status.sv.status) [
        | true ↦
            returning A (record { after = pos second })
              (update_phase A b b pending is_unknown "Accepted" "Bind accepted, pending sync") w
        | false ↦ reconcile_live now later b w
      ]
    ]
  ]

  unfoldable pub reconcile : ℕ → ℕ → String → String → Exec (World A) Failure Requeue
  reconcile now later namespace name w =
      let (r, w') = on_binds A (A.get namespace name) w in
      elim r [
        | err e ↦ (if is_not_found e then ok done else err (record { doing = ""; cause = e }), w')
        | ok b ↦ reconcile_read now later b w'
      ]
