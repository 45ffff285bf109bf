-- ===== src/Tests/Caches.antt =====
-- A redis with its entries in a list, and encodings that know one value of each kind.
use kube_argus.Base.{◌+◌, ◌≡◌, inl, inr, String, [], Result, ok, err, text_cases, true}
use native.Mathlib.Decide.{ℕ_discrete}
use kube_argus.Base.Dict.{Dict, lookup, insert, remove}
use kube_argus.Store.Types.{AuthRequest, CodeGrant, RefreshGrant, StoreError, Entry, fetch}
use kube_argus.Tests.Sweeps.{grant}
use kube_argus.Store.Redis.{RedisError, nil, Client, Codec, Codecs}

String-discrete : Discrete String
String-discrete s t = elim (text_cases s t) [ inl (e, p) ↦ yes p | inr (e, n) ↦ no n ]

AuthRequest-discrete : Discrete AuthRequest
AuthRequest-discrete = hlevel String-discrete

CodeGrant-discrete : Discrete CodeGrant
CodeGrant-discrete = hlevel (String-discrete, ℕ_discrete)

RefreshGrant-discrete : Discrete RefreshGrant
RefreshGrant-discrete = hlevel String-discrete

-- The one value goes to a text, and each text to it.
module _ {V : Type 0} (test : Discrete V) (known : V) where
  abbrev encoded : {v : V} → Dec (v ≡ known) → Result String String
  encoded (yes p) = ok "{}"
  encoded (no n) = err "unknown value"

  abbrev codec : Codec V
  codec = record { marshal = λ v. encoded (test v known); unmarshal = λ b. ok known }

abbrev as_reply : Result StoreError String → Result RedisError String
as_reply (ok b) = ok b
as_reply (err e) = err nil

abbrev client : Client
client = record {
  State = Dict (Entry String);
  set = λ now k b ttl m. (ok tt, insert k (record { val = b; exp = now + ttl }) m);
  get_del = λ now k m. (as_reply (fetch now (lookup k m)), remove k m);
}

abbrev login : AuthRequest
login = record {
  client_id = "headlamp";
  redirect_uri = "https://h/cb";
  state = "xyz";
  nonce = "n";
  code_challenge = "v";
  code_challenge_method = "S256";
  scope = "openid";
  idp_nonce = "m";
}

abbrev session : RefreshGrant
session = record {
  client_id = "headlamp";
  email = "ann@example.com";
  subject = "109";
  name = "Ann";
  email_verified = true;
  domain = "example.com";
  groups = [];
}

abbrev codecs : Codecs
codecs = record {
  auth = codec AuthRequest-discrete login;
  codes = codec CodeGrant-discrete grant;
  refresh = codec RefreshGrant-discrete session;
}
