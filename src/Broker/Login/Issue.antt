-- ===== src/Broker/Login/Issue.antt =====
-- What `issueTokens` of service/internal/broker/handlers.go has done when it returns the tokens.
use mathlib.Core.Path.{subst}
use kube_argus.Base.{
  ℕ, ◌≡◌, refl, ap, inl, inr, String, ◌+◌, ◌<>◌, arith, Result, ok, err, Result-cases,
  Outcome-cases,
}
use kube_argus.Config.{Config}
use kube_argus.Model.{Identity, Token}
use kube_argus.Store.Types.{StoreError}
use kube_argus.Store.Contract.{Store, IsStore, update, entry}
use kube_argus.Broker.Types.{Issued}
use kube_argus.Broker.Env.{Env}
use kube_argus.Broker.Steps.{sign_id_token, trim_right_slash}
use kube_argus.Broker.Login.{claims, refresh_grant, finish_issue, issue_tokens}
use kube_argus.Broker.Session.{State, random, stored, text_of_error}

module _ (S : Store) (E : Env) (c : Config) where
  -- The world after the bind is written, after it is bound, and after the token is minted.
  abbrev pub upserted : Identity → E.World → E.World
  upserted id w = (E.upsert id w).1

  abbrev pub waited : Identity → String → E.World → E.World
  waited id name w = (E.wait_binded name (upserted id w)).1

  abbrev pub minted : Identity → String → E.World → E.World
  minted id name w = (E.mint name (waited id name w)).1

  abbrev signed : Identity → String → String → E.World → Result String String
  signed id client_id nonce w =
      sign_id_token E (trim_right_slash c.issuer) (E.clock w) (claims S E c id client_id nonce)
        c.token_lifetime

  abbrev saved : Identity → String → State S E → Result StoreError (Unit {0}) × State S E
  saved id client_id st =
      stored S E
        (λ now.
          S.save_refresh now (random S E st).0 (refresh_grant S E c id client_id)
            c.refresh_token_lifetime)
        (random S E st).1

  abbrev issued : String → ℕ → String → State S E → Issued
  issued access expires_in id st = record {
    access = access;
    id = id;
    refresh = (random S E st).0;
    expires_in = expires_in;
  }

  finish_issue-ok :
      (id : Identity) (client_id nonce access : String) (expires_in : ℕ) (st : State S E)
      (j : String)
      → signed id client_id nonce st.world ≡ ok j
      → (saved id client_id st).0 ≡ ok tt
      → finish_issue S E c id client_id nonce access expires_in st
        ≡ (ok (issued access expires_in j st), (saved id client_id st).1)
  unfolding finish_issue
  finish_issue-ok id client_id nonce access expires_in st j p s = ground arith

  finish_issue-err :
      (id : Identity) (client_id nonce access : String) (expires_in : ℕ) (st : State S E)
      (e : String)
      → signed id client_id nonce st.world ≡ err e
      → (finish_issue S E c id client_id nonce access expires_in st).0
        ≡ err ("sign id_token" <> (": " <> e))
  unfolding finish_issue
  finish_issue-err id client_id nonce access expires_in st e p = ground arith

  finish_issue-unsaved :
      (id : Identity) (client_id nonce access : String) (expires_in : ℕ) (st : State S E)
      (j : String) (e : StoreError)
      → signed id client_id nonce st.world ≡ ok j
      → (saved id client_id st).0 ≡ err e
      → (finish_issue S E c id client_id nonce access expires_in st).0
        ≡ err ("save refresh: " <> text_of_error e)
  unfolding finish_issue
  finish_issue-unsaved id client_id nonce access expires_in st j e p s = ground arith

  issue_tokens-ok :
      (id : Identity) (client_id nonce : String) (st : State S E) (name : String) (token : Token)
      → (E.upsert id st.world).0 ≡ ok name
      → (E.wait_binded name (upserted id st.world)).0 ≡ ok tt
      → (E.mint name (waited id name st.world)).0 ≡ ok token
      → issue_tokens S E c id client_id nonce st
        ≡ finish_issue S E c id client_id nonce token.access_token token.expires_in
            (record st { world = minted id name st.world })
  unfolding issue_tokens
  issue_tokens-ok id client_id nonce st name token u w m = ground arith

  ok-injective : (x y : Issued) (r : Result String Issued) → r ≡ ok x → r ≡ ok y → x ≡ y
  ok-injective x y r p q = cc

  -- What a run of `finishIssue` that ends well did.
  finish :
      (id : Identity) (client_id nonce access : String) (expires_in : ℕ) (st : State S E)
      (t : Issued)
      → (finish_issue S E c id client_id nonce access expires_in st).0 ≡ ok t
      → (signed id client_id nonce st.world ≡ ok t.id)
        × (t.access ≡ access)
        × (t.expires_in ≡ expires_in)
        × (t.refresh ≡ (random S E st).0)
        × ((saved id client_id st).0 ≡ ok tt)
        × (finish_issue S E c id client_id nonce access expires_in st
            ≡ (ok t, (saved id client_id st).1))
  finish id client_id nonce access expires_in st t h =
      elim (Outcome-cases (signed id client_id nonce st.world)) [
        | inr (e, p) ↦
            let h' = rw (finish_issue-err id client_id nonce access expires_in st e p) at h in
            ground arith
        | inl (j, p) ↦ elim (Result-cases (saved id client_id st).0) [
          | inr (e, s) ↦
              let h' =
                rw (finish_issue-unsaved id client_id nonce access expires_in st j e p s) at h in
              ground arith
          | inl s ↦
              let q = finish_issue-ok id client_id nonce access expires_in st j p s in
              let e = ok-injective _ t _ (ap (λ r. r.0) q) h in
              subst
                (λ (v : Issued).
                  (signed id client_id nonce st.world ≡ ok v.id)
                  × (v.access ≡ access)
                  × (v.expires_in ≡ expires_in)
                  × (v.refresh ≡ (random S E st).0)
                  × ((saved id client_id st).0 ≡ ok tt)
                  × (finish_issue S E c id client_id nonce access expires_in st
                      ≡ (ok v, (saved id client_id st).1)))
                e (p, refl, refl, refl, s, q)
        ]
      ]

  -- The bind was written and waited for, and the token was minted for it after that.
  abbrev pub Bound : Identity → String → Token → E.World → Type 0
  Bound id name token w =
      ((E.upsert id w).0 ≡ ok name)
      × ((E.wait_binded name (upserted id w)).0 ≡ ok tt)
      × ((E.mint name (waited id name w)).0 ≡ ok token)

  issue_tokens-Bound :
      (id : Identity) (client_id nonce : String) (st : State S E) (t : Issued)
      → (issue_tokens S E c id client_id nonce st).0 ≡ ok t
      → (name : String) × (token : Token) × Bound id name token st.world
  unfolding issue_tokens
  issue_tokens-Bound id client_id nonce st t h = elim (Outcome-cases (E.upsert id st.world).0) [
    | inr (e, u) ↦ ground arith
    | inl (name, u) ↦ elim (Result-cases (E.wait_binded name (upserted id st.world)).0) [
      | inr (e, w) ↦ ground arith
      | inl w ↦ elim (Outcome-cases (E.mint name (waited id name st.world)).0) [
        | inr (e, m) ↦ ground arith
        | inl (token, m) ↦ (name, token, (u, w, m))
      ]
    ]
  ]

  -- How the tokens of an issue came about, from the world at its start. The refresh token is drawn
  -- last.
  pub record Issues (id : Identity) (client_id nonce : String) (w : E.World) (t : Issued)
      : Type 0 where
    pub name : String
    pub token : Token
    pub bound : Bound id name token w
    pub access : t.access ≡ token.access_token
    pub expires_in : t.expires_in ≡ token.expires_in
    pub sign : signed id client_id nonce (minted id name w) ≡ ok t.id
    pub refresh : t.refresh ≡ (E.rand_token (minted id name w)).0

  -- The store has changed by the refresh grant alone, which lives for the configured time.
  abbrev pub Keeps : IsStore S → Identity → String → State S E → Issued → State S E → Type 0
  Keeps L id client_id st t st' = L.view st'.store ≡ record (L.view st.store) {
    refresh =
        update t.refresh
          (entry (refresh_grant S E c id client_id) (E.clock st'.world + c.refresh_token_lifetime))
          (L.view st.store).refresh;
  }

  pub issue_tokens-Issues :
      (L : IsStore S) (id : Identity) (client_id nonce : String) (st : State S E) (t : Issued)
      → (issue_tokens S E c id client_id nonce st).0 ≡ ok t
      → Issues id client_id nonce st.world t
        × Keeps L id client_id st t (issue_tokens S E c id client_id nonce st).1
  issue_tokens-Issues L id client_id nonce st t h =
      let (name, token, (u, w, m)) = issue_tokens-Bound id client_id nonce st t h in
      let q = issue_tokens-ok id client_id nonce st name token u w m in
      let mid = record st { world = minted id name st.world } in
      let (p, a, x, r, s, e) =
        finish id client_id nonce token.access_token token.expires_in mid t (rw q at h) in
      (
        record {
          name = name;
          token = token;
          bound = (u, w, m);
          access = a;
          expires_in = x;
          sign = p;
          refresh = r;
        },
        rw (q, e, r)
            (L.save_refresh_law (E.clock (random S E mid).1.world) (random S E mid).0
              (refresh_grant S E c id client_id) c.refresh_token_lifetime st.store tt s),
      )
