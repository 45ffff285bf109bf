-- ===== src/Tests/Wiring.antt =====
-- A broker whose random tokens are counted and whose clock is the count, over the in-memory store.
use kube_argus.Base.{ℕ, suc, ◌<>◌, true, false, [], ◌∷◌, ok, decimal}
use kube_argus.Model.{Identity}
use kube_argus.Config.{Config}
use kube_argus.Store.Types.{AuthRequest}
use kube_argus.Store.Memory.{Memory}
use kube_argus.Store.Memory.Laws.{memory_store}
use kube_argus.Broker.Types.{CallbackQuery}
use kube_argus.Broker.Env.{Env}
use kube_argus.Broker.Session.{State}

abbrev pub ann : Identity
ann = record {
  subject = "109";
  email = "ann@example.com";
  email_verified = true;
  domain = "example.com";
  name = "Ann";
  groups = record { gid = "eng"; name = "Engineering"; domain = "example.com" } ∷ [];
}

abbrev pub wiring : Env
wiring = record {
  World = ℕ;
  clock = λ w. w;
  rand_token = λ w. (decimal w, suc w);
  auth_url = λ state nonce. "https://idp/auth?state=" <> (state <> ("&nonce=" <> nonce));
  authenticate = λ code nonce w. (ok ann, w);
  upsert = λ id w. (ok "ann", w);
  wait_binded = λ name w. (ok tt, w);
  mint = λ name w. (ok (record { access_token = "sa-token"; expires_in = 3600 }), w);
  sign = λ claims. ok ("signed " <> claims.sub);
  s256 = λ v. "hash of " <> v;
  url_parses = λ u. true;
  fold = λ r. r;
}

abbrev pub settings : Config
settings = record {
  issuer = "https://broker/";
  allowed_domains = "example.com" ∷ [];
  client_id = "headlamp";
  client_secret = "";
  redirect_uris = "https://h/cb" ∷ [];
  token_lifetime = 3_600_000_000_000;
  refresh_token_lifetime = 86_400_000_000_000;
}

abbrev pub pending : AuthRequest
pending = record {
  client_id = "headlamp";
  redirect_uri = "https://h/cb";
  state = "xyz";
  nonce = "n";
  code_challenge = "hash of v";
  code_challenge_method = "S256";
  scope = "openid";
  idp_nonce = "m";
}

-- The browser comes back for that login.
abbrev pub returning : CallbackQuery
returning = record { state = "s"; error = ""; error_description = ""; code = "idp-code" }

-- A store with one login, one code and one refresh token.
abbrev pub stocked : Memory
stocked = record {
  auth = ("s", record { val = pending; exp = 1000 }) ∷ [];
  codes =
      (
        "c",
        record {
          val = record {
            client_id = "headlamp";
            redirect_uri = "https://h/cb";
            code_challenge = "hash of v";
            nonce = "n";
            subject = "ann@example.com";
            access_token = "sa-token";
            id_token = "signed 109";
            refresh_token = "r";
            expires_in = 3600;
          };
          exp = 1000;
        },
      )
      ∷ [];
  refresh =
      (
        "r",
        record {
          val = record {
            client_id = "headlamp";
            email = "ann@example.com";
            subject = "109";
            name = "Ann";
            email_verified = true;
            domain = "example.com";
            groups = record { gid = "eng"; name = "Engineering"; domain = "example.com" } ∷ [];
          };
          exp = 1000;
        },
      )
      ∷ [];
  stopped = false;
}

abbrev pub start : State memory_store wiring
start = record { store = stocked; world = 7 }
