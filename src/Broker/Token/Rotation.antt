-- ===== src/Broker/Token/Rotation.antt =====
-- The refresh grant at /token, of service/internal/broker/handlers.go: the stored identity comes back
-- as it was, and the refresh token is exchanged for a new one with the same grant.
use mathlib.Core.Path.{subst, ap₂}
use kube_argus.Base.{
  ℕ, ◌+◌, ◌≡◌, ◌≢◌, refl, sym, ap, ◌∙◌, inl, inr, String, ◌==◌, true, false, if◌then◌else◌, Option,
  none, some, List, [], ◌∷◌, arith, ok, Outcome-cases, Bool-cases, eq_iff, eq_refl, text_cases,
}
use kube_argus.Config.{Config}
use kube_argus.Store.Types.{GroupRef, RefreshGrant, Entry, fetch}
use kube_argus.Store.Contract.{View, Store, IsStore, update, entry}
use kube_argus.Broker.Types.{TokenRequest, Response, tokens, oauth_error, Issued}
use kube_argus.Broker.Env.{Env}
use kube_argus.Broker.Steps.{client_id_of, to_group_refs, from_group_refs, write_token_response}
use kube_argus.Broker.Login.{refresh_grant, issue_tokens}
use kube_argus.Broker.Session.{State}
use kube_argus.Broker.Login.Issue.{Issues, issue_tokens-Issues}
use kube_argus.Broker.Token.{secret_missing, identity_of, reissue, handle_refresh}
use kube_argus.Broker.Token.Exchange.{KnowsSecret, secret_missing-KnowsSecret}

to_group_refs-from_group_refs : (gs : List GroupRef) → to_group_refs (from_group_refs gs) ≡ gs
unfolding to_group_refs from_group_refs
to_group_refs-from_group_refs [] = refl
to_group_refs-from_group_refs (g ∷ gs) = ap (λ rest. g ∷ rest) (to_group_refs-from_group_refs gs)

-- The key is removed, and an equal grant is stored under a new one.
rotation :
    (v v1 v2 : View) (k new : String) (g g' : RefreshGrant) (exp : ℕ)
    → v1 ≡ record v { refresh = update k none v.refresh }
    → v2 ≡ record v1 { refresh = update new (entry g' exp) v1.refresh }
    → g' ≡ g
    → v2 ≡ record v { refresh = update new (entry g exp) (update k none v.refresh) }
rotation v v1 v2 k new g g' exp p q e =
    q ∙ ap₂ (λ (w : View) h. record w { refresh = update new (entry h exp) w.refresh }) p e

-- The refresh token of an answer.
written :
    (access id refresh a i new : String) (expires_in x : ℕ)
    → write_token_response access id refresh expires_in ≡ tokens a i (some new) x
    → refresh ≡ new
unfolding write_token_response
written access id refresh a i new expires_in x h = ground arith

module _ (S : Store) (E : Env) (c : Config) where
  -- What is stored for the identity of a grant is the grant.
  regrant : (g : RefreshGrant) → refresh_grant S E c (identity_of g) g.client_id ≡ g
  unfolding identity_of
  regrant g = ap (λ gs. record g { groups = gs }) (to_group_refs-from_group_refs g.groups)

  abbrev after_take : TokenRequest → State S E → State S E
  after_take r st = record st {
    store = (S.take_refresh (E.clock st.world) r.refresh_token st.store).1;
  }

  reissued :
      (g : RefreshGrant) (st : State S E) (a i : String) (f : Option String) (x : ℕ)
      → (reissue S E c g st).0 ≡ tokens a i f x
      → (t : Issued) × ((issue_tokens S E c (identity_of g) g.client_id "" st).0 ≡ ok t)
  unfolding reissue
  reissued g st a i f x h =
      elim (Outcome-cases (issue_tokens S E c (identity_of g) g.client_id "" st).0) [
        | inl (t, p) ↦ (t, p)
        | inr (e, p) ↦ ground arith
      ]

  reissue-issues :
      (g : RefreshGrant) (st : State S E) (t : Issued)
      → (issue_tokens S E c (identity_of g) g.client_id "" st).0 ≡ ok t
      → reissue S E c g st ≡ (
        write_token_response t.access t.id t.refresh t.expires_in,
        (issue_tokens S E c (identity_of g) g.client_id "" st).1,
      )
  unfolding reissue
  reissue-issues g st t p = ground arith

  -- The grant was found, and the client is the one it was given to.
  accepted :
      (r : TokenRequest) (st : State S E) (a i : String) (f : Option String) (x : ℕ)
      → (handle_refresh S E c r st).0 ≡ tokens a i f x
      → (g : RefreshGrant) × ((S.take_refresh (E.clock st.world) r.refresh_token st.store).0 ≡ ok g)
        × (client_id_of r == g.client_id ≡ true)
        × (secret_missing c r ≡ false)
  unfolding handle_refresh
  accepted r st a i f x h =
      elim (Outcome-cases (S.take_refresh (E.clock st.world) r.refresh_token st.store).0) [
        | inr (e, p) ↦ ground arith
        | inl (g, p) ↦ elim (Bool-cases (client_id_of r == g.client_id)) [
          | inr n ↦ ground arith
          | inl n ↦ elim (Bool-cases (secret_missing c r)) [
            | inl s ↦ ground arith
            | inr s ↦ (g, p, n, s)
          ]
        ]
      ]

  handle_refresh-reissue :
      (r : TokenRequest) (st : State S E) (g : RefreshGrant)
      → (S.take_refresh (E.clock st.world) r.refresh_token st.store).0 ≡ ok g
      → client_id_of r == g.client_id ≡ true
      → secret_missing c r ≡ false
      → handle_refresh S E c r st ≡ reissue S E c g (after_take r st)
  unfolding handle_refresh
  handle_refresh-reissue r st g p n s = ground arith

  handle_refresh-missing :
      (r : TokenRequest) (st : State S E)
      → ((g : RefreshGrant)
          → (S.take_refresh (E.clock st.world) r.refresh_token st.store).0 ≡ ok g
          → ⊥)
      → (handle_refresh S E c r st).0
        ≡ oauth_error 400 "invalid_grant" "unknown or used refresh token"
  unfolding handle_refresh
  handle_refresh-missing r st n =
      elim (Outcome-cases (S.take_refresh (E.clock st.world) r.refresh_token st.store).0) [
        | inl (g, p) ↦ absurd (n g p)
        | inr (e, p) ↦ ground arith
      ]

  module _ (L : IsStore S) where
    -- The store after the refresh: the grant has moved to the new token.
    abbrev pub IsRotation : TokenRequest → State S E → String → RefreshGrant → State S E → Type 0
    IsRotation r st new g st' = L.view st'.store ≡ record (L.view st.store) {
      refresh =
          update new (entry g (E.clock st'.world + c.refresh_token_lifetime))
            (update r.refresh_token none (L.view st.store).refresh);
    }

    -- A refresh that gives tokens, its grant and what was issued for it.
    pub record Rotated (r : TokenRequest) (st : State S E) (answer : Response) (st' : State S E)
        : Type 0 where
      pub grant : RefreshGrant
      pub issued : Issued
      pub stored : fetch (E.clock st.world) ((L.view st.store).refresh r.refresh_token) ≡ ok grant
      pub client : client_id_of r ≡ grant.client_id
      pub secret : KnowsSecret c r
      pub issues : Issues S E c (identity_of grant) grant.client_id "" st.world issued
      pub answered :
          answer ≡ write_token_response issued.access issued.id issued.refresh issued.expires_in
      pub after : IsRotation r st issued.refresh grant st'

    -- A refresh token gives tokens only for a grant that is stored under it and has not expired, to
    -- the client of the grant, with the configured secret if there is one. The bind of the stored
    -- identity is renewed and waited for before the token is minted; the old refresh token is gone,
    -- and the same grant is stored under the new one.
    pub handle_refresh-Rotated :
        (r : TokenRequest) (st : State S E) (a i : String) (f : Option String) (x : ℕ)
        → (handle_refresh S E c r st).0 ≡ tokens a i f x
        → Rotated r st (handle_refresh S E c r st).0 (handle_refresh S E c r st).1
    handle_refresh-Rotated r st a i f x h =
        let (g, p, n, s) = accepted r st a i f x h in
        let e1 = handle_refresh-reissue r st g p n s in
        let (t, q) = reissued g (after_take r st) a i f x (ap (λ v. v.0) (sym e1) ∙ h) in
        let e2 = e1 ∙ reissue-issues g (after_take r st) t q in
        let (iss, keeps) =
          issue_tokens-Issues S E c L (identity_of g) g.client_id "" (after_take r st) t q in
        let (k, law) = L.take_refresh_law (E.clock st.world) r.refresh_token st.store g p in
        record {
          grant = g;
          issued = t;
          stored = k;
          client = (eq_iff (client_id_of r) g.client_id).0 n;
          secret = secret_missing-KnowsSecret c r s;
          issues = iss;
          answered = ap (λ v. v.0) e2;
          after =
              subst (λ v. IsRotation r st t.refresh g v.1) (sym e2)
                (rotation _ _ _ _ _ _ _ _ law keeps (regrant g));
        }

    gone :
        (k new k' : String) (e : Entry RefreshGrant) (m : String → Option (Entry RefreshGrant))
        → new ≢ k
        → k' ≡ k
        → update new (some e) (update k none m) k' ≡ none
    gone k new k' e m n same = elim (text_cases new k) [
      | inl (t, p) ↦ absurd (n p)
      | inr (t, p) ↦ rw (same, t, eq_refl k, if◌then◌else◌) refl
    ]

    -- After a refresh token has given tokens, of which the new refresh token is another one, the next
    -- request with the old one, whoever sends it and at whatever time, is refused.
    pub refresh_once :
        (r r' : TokenRequest) (st : State S E) (a i new : String) (x : ℕ) (later : E.World)
        → (handle_refresh S E c r st).0 ≡ tokens a i (some new) x
        → new ≢ r.refresh_token
        → r'.refresh_token ≡ r.refresh_token
        → (handle_refresh S E c r' (record (handle_refresh S E c r st).1 { world = later })).0
          ≡ oauth_error 400 "invalid_grant" "unknown or used refresh token"
    refresh_once r r' st a i new x later h n same =
        let rot = handle_refresh-Rotated r st a i (some new) x h in
        let fresh =
          written rot.issued.access rot.issued.id rot.issued.refresh a i new rot.issued.expires_in x
            (sym rot.answered ∙ h) in
        let out =
          ap (λ v. v.refresh r'.refresh_token) rot.after
          ∙ gone r.refresh_token rot.issued.refresh r'.refresh_token _ (L.view st.store).refresh
              (λ p. n (sym fresh ∙ p)) same in
        handle_refresh-missing r' (record (handle_refresh S E c r st).1 { world = later })
          (λ g p.
            L.absent_refresh_law (E.clock later) r'.refresh_token
              (handle_refresh S E c r st).1.store out g p)
