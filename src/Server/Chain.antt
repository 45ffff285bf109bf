-- ===== src/Server/Chain.antt =====
-- A login from end to end: /callback of service/internal/broker/handlers.go over
-- service/internal/idp and service/internal/k8s.
use kube_argus.Base.{
  ℕ, ◌+◌, ◌/◌, ◌≡◌, ap, ◌∙◌, String, true, List, ok, Result, Outcome-cases, inl, inr, arith,
}
use kube_argus.Config.{Config, allowed_domain}
use kube_argus.Model.{Identity, Token}
use kube_argus.Store.Types.{AuthRequest, fetch}
use kube_argus.Store.Contract.{Store, IsStore, update, entry}
use kube_argus.Idp.Calls.{Wiring}
use kube_argus.Idp.{Provider}
use kube_argus.Idp.Verified.{Verified, authenticate-Verified}
use kube_argus.K8s.SanitizeName.{sanitize_name}
use kube_argus.K8s.Binder.Minting.{mint-token}
use kube_argus.K8s.Binder.{Cluster, Binder, blank, renew, upsert, wait_binded}
use kube_argus.K8s.Binder.Waiting.{BoundBy, wait_binded_iff}
use kube_argus.Broker.Types.{CallbackQuery, Issued}
use kube_argus.Broker.Env.{Env}
use kube_argus.Broker.Login.{code_grant, code_ttl, callback}
use kube_argus.Broker.Session.{State}
use kube_argus.Broker.Login.Answers.{Carries}
use kube_argus.Broker.Login.Callback.{callback-LoggedIn}
use kube_argus.Server.Wired.{Rest, World, wired}

module _ (W : Wiring) (C : Cluster) (R : Rest) where
  -- The token of the ServiceAccount: minted for the name of the email, after the custom resource of
  -- that name was written with the identity and was read as bound.
  pub record MintedAfter (b : Binder) (audiences : List String) (ticks life : ℕ) (id : Identity)
      (s : C.State) (access : String) : Type 0 where
    pub written : (upsert C b id s).0 ≡ ok (sanitize_name id.email)
    pub bound : BoundBy C b (sanitize_name id.email) ticks (upsert C b id s).1
    pub minted :
        (C.create_token b.namespace
          (sanitize_name id.email)
          audiences
          life
          (wait_binded C b (sanitize_name id.email) ticks (upsert C b id s).1).1).0
        ≡ ok access

  ok-same : (x y : String) (r : Result String String) → r ≡ ok x → r ≡ ok y → x ≡ y
  ok-same x y r p q = ground arith

  upsert-name :
      (b : Binder) (id : Identity) (s : C.State) (name : String)
      → (upsert C b id s).0 ≡ ok name
      → name ≡ sanitize_name id.email
  unfolding upsert
  upsert-name b id s name h =
      elim (Outcome-cases
        (C.create_or_update (blank b.namespace (sanitize_name id.email))
          (renew b id (C.format_time (C.clock s))) s).0) [
            | inl (x, e) ↦ ground arith
            | inr (m, e) ↦ ground arith
          ]

  module _ (S : Store) (L : IsStore S) (p : Provider W) (b : Binder) (audiences : List String)
      (ticks : ℕ) (c : Config) where
    abbrev broker : Env
    broker = wired W C R p b audiences ticks c

    chain-MintedAfter :
        (id : Identity) (w : World W C R) (name : String) (t : Token)
        → (broker.upsert id w).0 ≡ ok name
        → (broker.wait_binded name (broker.upsert id w).1).0 ≡ ok tt
        → (broker.mint name (broker.wait_binded name (broker.upsert id w).1).1).0 ≡ ok t
        → MintedAfter b audiences ticks
            (c.token_lifetime / 1_000_000_000)
            id
            w.cluster
            t.access_token
    chain-MintedAfter id w name t u v m =
        let same = upsert-name b id w.cluster name u in
        record {
          written = u ∙ ap ok same;
          bound =
              (wait_binded_iff C b (sanitize_name id.email) ticks (upsert C b id w.cluster).1).0
                (rw⁻¹ same v);
          minted =
              mint-token C b.namespace audiences (c.token_lifetime / 1_000_000_000)
                (sanitize_name id.email) _ t (rw⁻¹ same m);
        }

    -- What stands behind a code, over all parts.
    pub record Earned (q : CallbackQuery) (st : State S broker) (code : String)
        (st' : State S broker) : Type 0 where
      pub request : AuthRequest
      pub identity : Identity
      pub tokens : Issued
      pub pending : fetch (C.clock st.world.cluster) ((L.view st.store).auth q.state) ≡ ok request
      pub verified : Verified W p q.code request.idp_nonce st.world.idp identity
      pub email_verified : identity.email_verified ≡ true
      pub allowed : allowed_domain R.fold c identity.domain ≡ true
      pub minted :
          MintedAfter b audiences ticks
            (c.token_lifetime / 1_000_000_000)
            identity
            st.world.cluster
            tokens.access
      pub granted :
          (L.view st'.store).codes
          ≡ update code
              (entry
                (code_grant S broker c request identity tokens)
                (C.clock st'.world.cluster + code_ttl))
              (L.view st.store).codes

    -- When the broker hands out a code, the login was pending; the provider exchanged the code of the
    -- callback for an id_token that it verified for the nonce of this login; the email in it is
    -- verified and its domain allowed; the custom resource of that email was written and then read in
    -- the phase binded, in time; and the code stands for a token that was then minted for the
    -- ServiceAccount of that email, in the namespace and for the audiences of the configuration.
    pub callback-Earned :
        (q : CallbackQuery) (st : State S broker) (uri code : String) (ps : List (String × String))
        → Carries S broker c (callback S broker c q st).0 uri ps code
        → Earned q st code (callback S broker c q st).1
    callback-Earned q st uri code ps h =
        let l = callback-LoggedIn S broker c L q st uri code ps h in
        let (u, v, m) = l.admits.issued.bound in
        record {
          request = l.request;
          identity = l.identity;
          tokens = l.tokens;
          pending = l.pending;
          verified =
              authenticate-Verified W p q.code l.request.idp_nonce st.world.idp l.identity
                l.admits.authenticated;
          email_verified = l.admits.verified;
          allowed = l.admits.allowed;
          minted = rw l.admits.issued.access (
              chain-MintedAfter l.identity st.world l.admits.issued.name l.admits.issued.token u v
                m);
          granted = ap (λ x. x.codes) l.after;
        }
