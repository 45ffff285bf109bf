-- ===== src/Broker/Login.antt =====
-- `Authorize`, `Callback` and `issueTokens` of service/internal/broker/handlers.go.
pub mod Registered
pub mod Admission
pub mod Issue
pub mod Answers
pub mod Callback
use kube_argus.Base.{ℕ, ◌*◌, String, ◌<>◌, ◌==◌, Bool, true, false, not, ◌||◌, ◌&&◌, Option, some}
use kube_argus.Base.{List, [], ◌∷◌, ◌++◌, Result, ok, err, Exec, continue, if◌then◌else◌}
use kube_argus.Model.{Identity}
use kube_argus.Config.{Config, allowed_domain, redirect_allowed}
use kube_argus.Store.Types.{AuthRequest, CodeGrant, RefreshGrant, StoreError, not_found, backend}
use kube_argus.Store.Contract.{Store}
use kube_argus.Broker.Types.{
  AuthorizeQuery, CallbackQuery, Response, http_error, redirect_to, redirect_with, panics, IdClaims,
  Issued,
}
use kube_argus.Broker.Env.{Env}
use kube_argus.Broker.Steps.{
  scope_has, gids, to_group_refs, unless_empty, redirect_error, sign_id_token, trim_right_slash,
}
use kube_argus.Broker.Session.{State, text_of_error, stored, outside, random, or_fail}

-- 10 minutes and 2 minutes.
abbrev pub auth_request_ttl : ℕ
auth_request_ttl = 600_000_000_000

abbrev pub code_ttl : ℕ
code_ttl = 120_000_000_000

module _ (S : Store) (E : Env) (c : Config) where
  -- The three tests of /authorize that come after the client and the URI.
  unfoldable pub pkce_given : AuthorizeQuery → Bool
  pkce_given q = not (q.code_challenge == "") && q.code_challenge_method == "S256"

  unfoldable pub client_allowed : AuthorizeQuery → Bool
  client_allowed q = q.client_id == c.client_id && redirect_allowed c q.redirect_uri

  -- The pending request that /authorize stores.
  abbrev pub auth_request : AuthorizeQuery → String → AuthRequest
  auth_request q idp_nonce = record {
    client_id = q.client_id;
    redirect_uri = q.redirect_uri;
    state = q.state;
    nonce = q.nonce;
    code_challenge = q.code_challenge;
    code_challenge_method = "S256";
    scope = q.scope;
    idp_nonce = idp_nonce;
  }

  -- From the two random tokens on.
  unfoldable pub start_login : AuthorizeQuery → State S E → Response × State S E
  start_login q st =
      let (broker_state, st1) = random S E st in
      let (idp_nonce, st2) = random S E st1 in
      let (r, st3) =
        stored S E
          (λ now. S.save_auth_request now broker_state (auth_request q idp_nonce) auth_request_ttl)
          st2 in
      elim r [
        | err _ ↦
            (redirect_error E q.redirect_uri q.state "server_error" "could not start login", st3)
        | ok _ ↦ (redirect_to (E.auth_url broker_state idp_nonce), st3)
      ]

  unfoldable pub authorize : AuthorizeQuery → State S E → Response × State S E
  authorize q st =
      if not (client_allowed q)
      then (http_error 400 "invalid client_id or redirect_uri", st)
      else if not (q.response_type == "code")
      then (
        redirect_error E q.redirect_uri q.state "unsupported_response_type"
            "only code is supported",
        st,
      )
      else if not (scope_has q.scope "openid")
      then (redirect_error E q.redirect_uri q.state "invalid_scope" "openid scope required", st)
      else if not (pkce_given q)
      then (redirect_error E q.redirect_uri q.state "invalid_request" "PKCE S256 required", st)
      else start_login q st

  -- The subject of the id_token, and its claims before `signIDToken` adds the issuer and the times.
  abbrev pub claims : Identity → String → String → IdClaims
  claims id client_id nonce = record {
    iss = "";
    sub = if id.subject == "" then id.email else id.subject;
    aud = client_id;
    exp = 0;
    iat = 0;
    nonce = nonce;
    email = id.email;
    email_verified = id.email_verified;
    name = id.name;
    groups = gids id.groups;
  }

  abbrev pub refresh_grant : Identity → String → RefreshGrant
  refresh_grant id client_id = record {
    client_id = client_id;
    email = id.email;
    subject = id.subject;
    name = id.name;
    email_verified = id.email_verified;
    domain = id.domain;
    groups = to_group_refs id.groups;
  }

  -- From the minted token on: sign, and store the refresh grant under a new token.
  unfoldable pub finish_issue :
      Identity → String → String → String → ℕ → Exec (State S E) String Issued
  finish_issue id client_id nonce access expires_in st =
      or_fail S E "sign id_token"
        (sign_id_token E (trim_right_slash c.issuer) (E.clock st.world) (claims id client_id nonce)
          c.token_lifetime)
        (λ id_token st1.
          let (refresh, st2) = random S E st1 in
          let (r, st3) =
            stored S E
              (λ now.
                S.save_refresh now refresh (refresh_grant id client_id) c.refresh_token_lifetime)
              st2 in
          elim r [
            | err e ↦ (err ("save refresh: " <> text_of_error e), st3)
            | ok _ ↦ (
              ok (record {
                access = access;
                id = id_token;
                refresh = refresh;
                expires_in = expires_in;
              }),
              st3,
            )
          ])
        st

  unfoldable pub issue_tokens : Identity → String → String → Exec (State S E) String Issued
  issue_tokens id client_id nonce st =
      let (upserted, st1) = outside S E (E.upsert id) st in
      or_fail S E "upsert bind" upserted
        (λ name st2.
          let (waited, st3) = outside S E (E.wait_binded name) st2 in
          or_fail S E "wait binded" waited
            (λ _ st4.
              let (minted, st5) = outside S E (E.mint name) st4 in
              or_fail S E "mint token" minted
                (λ token. finish_issue id client_id nonce token.access_token token.expires_in) st5)
            st3)
        st1

  -- The grant that a code stands for.
  abbrev pub code_grant : AuthRequest → Identity → Issued → CodeGrant
  code_grant ar id t = record {
    client_id = ar.client_id;
    redirect_uri = ar.redirect_uri;
    code_challenge = ar.code_challenge;
    nonce = ar.nonce;
    subject = id.email;
    access_token = t.access;
    id_token = t.id;
    refresh_token = t.refresh;
    expires_in = t.expires_in;
  }

  -- The redirect that hands the code out. The code ignores an error of `url.Parse` here, and uses
  -- the nil URL.
  unfoldable pub hand_out : AuthRequest → String → Response
  hand_out ar code =
      if E.url_parses ar.redirect_uri
      then redirect_with ar.redirect_uri (("code", code) ∷ unless_empty "state" ar.state)
      else panics

  -- From the issued tokens on.
  unfoldable pub issue_code : AuthRequest → Identity → Issued → State S E → Response × State S E
  issue_code ar id t st =
      let (code, st1) = random S E st in
      let (r, st2) = stored S E (λ now. S.save_code now code (code_grant ar id t) code_ttl) st1 in
      elim r [
        | err _ ↦
            (redirect_error E ar.redirect_uri ar.state "server_error" "could not issue code", st2)
        | ok _ ↦ (hand_out ar code, st2)
      ]

  -- From the verified identity on.
  unfoldable pub admit : AuthRequest → Identity → State S E → Response × State S E
  admit ar id st =
      if not id.email_verified || not (allowed_domain E.fold c id.domain)
      then (
        redirect_error E ar.redirect_uri ar.state "access_denied" "domain or email not allowed",
        st,
      )
      else let (r, st1) = issue_tokens id ar.client_id ar.nonce st in
        elim r [
          | err _ ↦ (
            redirect_error E ar.redirect_uri ar.state "server_error" "could not issue tokens",
            st1,
          )
          | ok t ↦ issue_code ar id t st1
        ]

  -- From the pending request on.
  unfoldable pub resume : AuthRequest → CallbackQuery → State S E → Response × State S E
  resume ar q st =
      if not (q.error == "")
      then (redirect_error E ar.redirect_uri ar.state q.error q.error_description, st)
      else let (r, st1) = outside S E (E.authenticate q.code ar.idp_nonce) st in
        elim r [
          | err _ ↦ (
            redirect_error E ar.redirect_uri ar.state "access_denied" "authentication failed",
            st1,
          )
          | ok id ↦ admit ar id st1
        ]

  unfoldable pub callback : CallbackQuery → State S E → Response × State S E
  callback q st =
      let (r, st1) = stored S E (λ now. S.take_auth_request now q.state) st in
      elim r [
        | err _ ↦ (http_error 400 "unknown or expired login state", st1)
        | ok ar ↦ resume ar q st1
      ]
