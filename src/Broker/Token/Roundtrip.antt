-- ===== src/Broker/Token/Roundtrip.antt =====
-- From the code of /callback to the tokens of /token, over the in-memory store.
use mathlib.Core.Path.{subst}
use kube_argus.Base.{
  ℕ, ◌+◌, ◌≤◌, ◌≡◌, sym, ap, ◌∙◌, refl, String, true, false, if◌then◌else◌, arith, ok, eq_iff, ◌∷◌,
  eq_refl,
}
use kube_argus.Config.{Config, allowed_domain}
use kube_argus.Model.{Identity}
use kube_argus.Store.Types.{AuthRequest, CodeGrant, fetch}
use kube_argus.Store.Contract.{entry}
use kube_argus.Store.Memory.{take_auth_request, save_code}
use kube_argus.Store.Memory.Laws.{memory_store, memory_laws, take_code-fetch}
use kube_argus.Broker.Types.{CallbackQuery, TokenRequest, Issued, redirect_with}
use kube_argus.Broker.Env.{Env}
use kube_argus.Broker.Steps.{client_id_of, verify_pkce, write_token_response, unless_empty}
use kube_argus.Broker.Login.{code_ttl, code_grant, hand_out, issue_tokens, callback}
use kube_argus.Broker.Session.{State, random}
use kube_argus.Broker.Login.Answers.{
  saved, issue_code-ok, authenticated, callback-resume, resume-admit, admit-issues,
}
use kube_argus.Broker.Token.{secret_missing, is_granted_to, redeem, handle_auth_code}
use kube_argus.Broker.Token.Exchange.{granted, handle-found}

alive : {V : Type 0} (v : V) (now exp : ℕ) → now ≤ exp → fetch now (entry v exp) ≡ ok v
unfolding fetch
alive v now exp h = ground arith

same_client :
    (g : CodeGrant) (r : TokenRequest)
    → client_id_of r ≡ g.client_id
    → r.redirect_uri ≡ g.redirect_uri
    → is_granted_to g r ≡ true
unfolding is_granted_to
same_client g r p q =
    ground
      (arith, (eq_iff (client_id_of r) g.client_id).1 p, (eq_iff r.redirect_uri g.redirect_uri).1 q)

module _ (E : Env) (c : Config) where
  pkce_true : (v k : String) → E.s256 v ≡ k → verify_pkce E v k ≡ true
  unfolding verify_pkce
  pkce_true v k p = (eq_iff (E.s256 v) k).1 p

  -- The request of the client that the code was made for.
  pub record Presents (r : TokenRequest) (ar : AuthRequest) (code : String) : Type 0 where
    pub code_given : r.code ≡ code
    pub client : client_id_of r ≡ ar.client_id
    pub redirect : r.redirect_uri ≡ ar.redirect_uri
    pub secret : secret_missing c r ≡ false
    pub pkce : E.s256 r.code_verifier ≡ ar.code_challenge

  redeem-granted :
      (r : TokenRequest) (g : CodeGrant)
      → is_granted_to g r ≡ true
      → secret_missing c r ≡ false
      → verify_pkce E r.code_verifier g.code_challenge ≡ true
      → redeem E c r g ≡ granted g
  unfolding redeem
  redeem-granted r g a s p = ground arith

  -- The states of a login: with the request taken, with the identity known, with the tokens issued.
  module _ (q : CallbackQuery) (st : State memory_store E) (ar : AuthRequest) (id : Identity)
      (t : Issued) where
    abbrev pub resumed : State memory_store E
    resumed = record st { store = (take_auth_request (E.clock st.world) q.state st.store).1 }

    abbrev pub known_at : State memory_store E
    known_at = authenticated memory_store E c q ar resumed

    abbrev pub issued_at : State memory_store E
    issued_at = (issue_tokens memory_store E c id ar.client_id ar.nonce known_at).1

    abbrev pub new_code : String
    new_code = (random memory_store E issued_at).0

    abbrev ended : State memory_store E
    ended = (saved memory_store E c ar id t issued_at).1

    always_saved : (saved memory_store E c ar id t issued_at).0 ≡ ok tt
    unfolding save_code
    always_saved = refl

    found_later :
        (later : E.World)
        → E.clock later ≤ E.clock ended.world + code_ttl
        → (memory_store.take_code (E.clock later) new_code ended.store).0
          ≡ ok (code_grant memory_store E c ar id t)
    found_later later h =
        take_code-fetch (E.clock later) new_code ended.store
        ∙ ap (λ v. fetch (E.clock later) (v.codes new_code))
            (memory_laws.save_code_law (E.clock ended.world) new_code
              (code_grant memory_store E c ar id t) code_ttl
              (random memory_store E issued_at).1.store tt always_saved)
        ∙ rw (eq_refl new_code, if◌then◌else◌)
            (alive (code_grant memory_store E c ar id t) (E.clock later)
              (E.clock ended.world + code_ttl) h)

    redeemed :
        (r : TokenRequest)
        → Presents r ar new_code
        → redeem E c r (code_grant memory_store E c ar id t)
          ≡ granted (code_grant memory_store E c ar id t)
    redeemed r p =
        redeem-granted r (code_grant memory_store E c ar id t)
          (same_client (code_grant memory_store E c ar id t) r p.client p.redirect) p.secret
          (pkce_true r.code_verifier ar.code_challenge p.pkce)

    exchanged :
        (r : TokenRequest) (later : E.World)
        → Presents r ar new_code
        → E.clock later ≤ E.clock ended.world + code_ttl
        → (handle_auth_code memory_store E c r (record ended { world = later })).0
          ≡ granted (code_grant memory_store E c ar id t)
    exchanged r later p h =
        let taken =
          subst
            (λ k.
              (memory_store.take_code (E.clock later) k ended.store).0
              ≡ ok (code_grant memory_store E c ar id t))
            (sym p.code_given) (found_later later h) in
        ap (λ x. x.0)
          (handle-found memory_store E c r (record ended { world = later })
            (code_grant memory_store E c ar id t) taken)
        ∙ redeemed r p

    callback-ends :
        (take_auth_request (E.clock st.world) q.state st.store).0 ≡ ok ar
        → q.error ≡ ""
        → (E.authenticate q.code ar.idp_nonce st.world).0 ≡ ok id
        → id.email_verified ≡ true
        → allowed_domain E.fold c id.domain ≡ true
        → (issue_tokens memory_store E c id ar.client_id ar.nonce known_at).0 ≡ ok t
        → callback memory_store E c q st ≡ (hand_out memory_store E c ar new_code, ended)
    callback-ends p n a v d i =
        callback-resume memory_store E c q st ar p
        ∙ resume-admit memory_store E c q ar resumed id ((eq_iff q.error "").1 n) a
        ∙ admit-issues memory_store E c ar id known_at t v d i
        ∙ issue_code-ok memory_store E c ar id t issued_at always_saved

    hand_out-parsed :
        E.url_parses ar.redirect_uri ≡ true
        → hand_out memory_store E c ar new_code
          ≡ redirect_with ar.redirect_uri (("code", new_code) ∷ unless_empty "state" ar.state)
    unfolding hand_out
    hand_out-parsed u = rw (u, if◌then◌else◌) refl

    -- Over the in-memory store, a login that is pending, that the provider does not refuse, whose
    -- identity is verified and allowed, whose tokens are issued and whose redirect URI parses ends in
    -- the redirect to that URI with a new code and the client's state, if it gave one; and the next
    -- request to /token within two minutes that presents that code for the login's client and redirect
    -- URI, with the secret if one is configured and a verifier of the login's challenge, is answered
    -- with the issued tokens.
    pub callback-granted :
        (r : TokenRequest) (later : E.World)
        → (take_auth_request (E.clock st.world) q.state st.store).0 ≡ ok ar
        → q.error ≡ ""
        → (E.authenticate q.code ar.idp_nonce st.world).0 ≡ ok id
        → id.email_verified ≡ true
        → allowed_domain E.fold c id.domain ≡ true
        → (issue_tokens memory_store E c id ar.client_id ar.nonce known_at).0 ≡ ok t
        → E.url_parses ar.redirect_uri ≡ true
        → Presents r ar new_code
        → E.clock later ≤ E.clock (callback memory_store E c q st).1.world + code_ttl
        → ((callback memory_store E c q st).0
            ≡ redirect_with ar.redirect_uri (("code", new_code) ∷ unless_empty "state" ar.state))
          × ((handle_auth_code memory_store E c r
                (record (callback memory_store E c q st).1 { world = later })).0
              ≡ write_token_response t.access t.id t.refresh t.expires_in)
    callback-granted r later p n a v d i u s h =
        let e = callback-ends p n a v d i in
        (
          ap (λ x. x.0) e ∙ hand_out-parsed u,
          ap (λ x. (handle_auth_code memory_store E c r (record (x.1) { world = later })).0) e
              ∙ exchanged r later s (subst (λ x. E.clock later ≤ E.clock x.1.world + code_ttl) e h),
        )
