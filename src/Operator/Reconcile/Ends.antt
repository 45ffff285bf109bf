-- ===== src/Operator/Reconcile/Ends.antt =====
-- What a whole reconcile of a live, unexpired bind has done.
use kube_argus.Base.{ℕ, ◌<◌, ◌≡◌, refl, ap, ◌∙◌, ◌⊎◌, inl, inr, String, true, false}
use kube_argus.Base.{Result, ok, err, arith, Exec, continue}
use kube_argus.Base.{Outcome-cases, Bool-cases, sub_ℕ}
use kube_argus.Operator.Types.{Bind, BindPhase, ServiceAccount, binding, is_unknown}
use kube_argus.Operator.Api.{Api, World, IsBindings}
use kube_argus.Operator.Sync.{Failure, cluster_kind, namespaced_kind}
use kube_argus.Operator.Steps.{
  Requeue, done, is_binded, update_phase, ensure_service_account, sync_bindings,
}
use kube_argus.Operator.Reconcile.{
  expiry_of, with_ref, fail, sync_and_converge, establish, reconcile_live, reconcile,
}
use kube_argus.Operator.Reconcile.Reads.{after_get, IsLive, reconcile-live}
use kube_argus.Operator.Reconcile.Grant.{Granted}
use kube_argus.Operator.Reconcile.Bound.{
  SentFailed, fail-SentFailed, SameBindings, SyncEnds, sync_and_converge-SyncEnds,
}

module _ (A : Api) (C : IsBindings cluster_kind.key A.cluster_role_bindings)
    (R : IsBindings namespaced_kind.key A.role_bindings) where
  -- The object that a reconcile goes on with after the ServiceAccount, and the world: what it has, if
  -- the bind was bound, or else what its write of the phase `binding` answers and leaves.
  abbrev pub IsCurrent : Bind → World A → ServiceAccount → Bind → World A → Type 0
  IsCurrent b u sa b' v =
      let m =
        update_phase A b (with_ref A b sa.uid) binding is_unknown "Syncing" "Syncing RBAC bindings"
          u in
      ((is_binded b.status.sv.status ≡ true) × (b' ≡ b) × (v ≡ u))
      ⊎ ((is_binded b.status.sv.status ≡ false) × (m.0 ≡ ok b') × (v ≡ m.1))

  -- The ServiceAccount failed, and so did the bind. Or there is one, and `syncBindings` failed, and so
  -- did the bind; or the bindings agree with the roles, and there is a requeue at the expiry.
  abbrev pub Ends : Bind → ℕ → ℕ → World A → Requeue → World A → Type 0
  Ends b expiry later w q t =
      let (r, u) = ensure_service_account A b w in
      ((f : Failure) × (r ≡ err f) × SentFailed A C R b b "ServiceAccountFailed" f u t × (done ≡ q))
      ⊎ ((sa : ServiceAccount) × (r ≡ ok sa)
          × ((b' : Bind) × (v : World A) × IsCurrent b u sa b' v
              × (((f : Failure) × ((sync_bindings A b' sa v).0 ≡ err f)
                    × SentFailed A C R b b' "BindFailed" f (sync_bindings A b' sa v).1 t
                    × (done ≡ q))
                  ⊎ (Granted A C R b' sa w t × (q.after ≡ sub_ℕ expiry later)))))

  module _ (later : ℕ) (b : Bind) (expiry : ℕ) (w : World A) where
    abbrev pub ensured : Result Failure ServiceAccount × World A
    ensured = ensure_service_account A b w

    abbrev pub rebinding : ServiceAccount → Result Failure Bind × World A
    rebinding sa =
        update_phase A b (with_ref A b sa.uid) binding is_unknown "Syncing" "Syncing RBAC bindings"
          ensured.1

    pub establish-fail :
        (f : Failure)
        → ensured.0 ≡ err f
        → establish A later b expiry w ≡ fail A b b "ServiceAccountFailed" f ensured.1
    unfolding establish
    establish-fail f p = rw (p, establish) refl

    pub establish-binded :
        (sa : ServiceAccount)
        → ensured.0 ≡ ok sa
        → is_binded b.status.sv.status ≡ true
        → establish A later b expiry w
          ≡ sync_and_converge A later b.status.sv.status b b sa expiry ensured.1
    unfolding establish
    establish-binded sa p e = ground arith

    pub establish-rebind :
        (sa : ServiceAccount)
        → ensured.0 ≡ ok sa
        → is_binded b.status.sv.status ≡ false
        → establish A later b expiry w
          ≡ continue
              (rebinding sa).0
              (λ b'. sync_and_converge A later b.status.sv.status b b' sa expiry)
              (rebinding sa).1
    unfolding establish
    establish-rebind sa p e = ground arith

    pub establish-rebind_ok :
        (sa : ServiceAccount) (b' : Bind)
        → ensured.0 ≡ ok sa
        → is_binded b.status.sv.status ≡ false
        → (rebinding sa).0 ≡ ok b'
        → establish A later b expiry w
          ≡ sync_and_converge A later b.status.sv.status b b' sa expiry (rebinding sa).1
    unfolding establish
    establish-rebind_ok sa b' p e u = ground arith

    -- What the stretch starts from are the bindings and roles that the reconcile found.
    Granted-earlier :
        (b' : Bind) (sa : ServiceAccount) (v t : World A)
        → v.cluster_roles ≡ w.cluster_roles
        → v.roles ≡ w.roles
        → SameBindings A C R w v
        → Granted A C R b' sa v t
        → Granted A C R b' sa w t
    Granted-earlier b' sa v t c r s g = record {
      cluster_roles = g.cluster_roles;
      cluster_roles_listed = rw (← c) g.cluster_roles_listed;
      crbs = rw (← s.crbs) g.crbs;
      roles = g.roles;
      roles_listed = rw (← r) g.roles_listed;
      rbs = rw (← s.rbs) g.rbs;
    }

    SyncEnds-Ends :
        (prev : BindPhase) (b' : Bind) (sa : ServiceAccount) (v t : World A) (q : Requeue)
        → ensured.0 ≡ ok sa
        → IsCurrent b ensured.1 sa b' v
        → v.cluster_roles ≡ w.cluster_roles
        → v.roles ≡ w.roles
        → SameBindings A C R w v
        → SyncEnds A C R later prev b b' sa expiry v q t
        → Ends b expiry later w q t
    SyncEnds-Ends prev b' sa v t q p i c r s (inl (f, h, sent, a)) =
        inr (sa, p, (b', v, i, inl (f, h, sent, a)))
    SyncEnds-Ends prev b' sa v t q p i c r s (inr (g, a)) =
        inr (sa, p, (b', v, i, inr (Granted-earlier b' sa v t c r s g, a)))

    pub continue_stop :
        {X Y : Type 0} (m : Result Failure X) (k : X → Exec (World A) Failure Y) (f : Failure)
        (v : World A)
        → m ≡ err f
        → (continue m k v).0 ≡ err f
    continue_stop m k f v e = rw (e, continue) refl

    Unmoved : (v : World A) → World A → Type 0
    Unmoved v u = (u.cluster_roles ≡ v.cluster_roles) × (u.roles ≡ v.roles) × SameBindings A C R v u

    ensured-Unmoved : Unmoved w ensured.1
    unfolding Unmoved ensure_service_account
    ensured-Unmoved = (refl, refl, record { crbs = refl; rbs = refl })

    rebinding-Unmoved : (sa : ServiceAccount) → Unmoved w (rebinding sa).1
    unfolding Unmoved ensure_service_account update_phase
    rebinding-Unmoved sa = (refl, refl, record { crbs = refl; rbs = refl })

    establish-Ends :
        (q : Requeue)
        → (establish A later b expiry w).0 ≡ ok q
        → Ends b expiry later w q (establish A later b expiry w).1
    unfolding Unmoved
    establish-Ends q h = elim (Outcome-cases ensured.0) [
      | inr (f, p) ↦
          let (sent, a) =
            fail-SentFailed A C R b b "ServiceAccountFailed" f ensured.1 q
              (rw (establish-fail f p) at h) in
          rw (establish-fail f p) (inl (f, p, sent, a))
      | inl (sa, p) ↦ elim (Bool-cases (is_binded b.status.sv.status)) [
        | inl e ↦
            let (c, r, s) = ensured-Unmoved in
            rw (establish-binded sa p e) (
              SyncEnds-Ends b.status.sv.status b sa ensured.1 _ q p (inl (e, refl, refl)) c r s (
                sync_and_converge-SyncEnds A C R later b.status.sv.status b b sa expiry ensured.1 q
                  (rw (establish-binded sa p e) at h)))
        | inr e ↦ elim (Outcome-cases (rebinding sa).0) [
          | inr (f, u) ↦
              cc
                (h, ap (λ x. x.0) (establish-rebind sa p e), continue_stop _ _ f (rebinding sa).1 u)
          | inl (b', u) ↦
              let (c, r, s) = rebinding-Unmoved sa in
              let same = establish-rebind_ok sa b' p e u in
              rw same (
                SyncEnds-Ends b.status.sv.status b' sa (rebinding sa).1 _ q p (inr (e, u, refl)) c r
                  s
                  (sync_and_converge-SyncEnds A C R later b.status.sv.status b b' sa expiry
                    (rebinding sa).1 q (rw same at h)))
        ]
      ]
    ]

  pub reconcile_live-establish :
      (now later : ℕ) (w : World A) (b : Bind) (ttl : ℕ)
      → A.parse_duration b.spec.ttl ≡ ok ttl
      → now < expiry_of A b ttl
      → reconcile_live A now later b w ≡ establish A later b (expiry_of A b ttl) w
  unfolding reconcile_live
  reconcile_live-establish now later w b ttl p h = ground arith

  -- A reconcile of a live bind whose expiry is after the clock, and that returns no error, ends in one
  -- of three ways. The ServiceAccount could not be ensured, or `syncBindings` returned an error: then the
  -- last write is the status with the phase `failed` and that error's text, and no requeue is asked for.
  -- Or the bindings of both kinds agree with the listed roles and the memberships of the object it read
  -- (or got back from its write of the phase `binding`), and it asks to be run again when the expiry is
  -- reached.
  pub reconcile_bound :
      (now later : ℕ) (namespace name : String) (w : World A) (b : Bind) (ttl : ℕ) (q : Requeue)
      → (A.get namespace name w.binds).0 ≡ ok b
      → IsLive A C R b
      → A.parse_duration b.spec.ttl ≡ ok ttl
      → now < expiry_of A b ttl
      → (reconcile A now later namespace name w).0 ≡ ok q
      → Ends b
          (expiry_of A b ttl)
          later
          (after_get A C R namespace name w)
          q
          (reconcile A now later namespace name w).1
  reconcile_bound now later namespace name w b ttl q g l p h e =
      let v = after_get A C R namespace name w in
      let same =
        reconcile-live A C R now later namespace name w b g l
        ∙ reconcile_live-establish now later v b ttl p h in
      rw same (establish-Ends later b (expiry_of A b ttl) v q (rw same at e))
