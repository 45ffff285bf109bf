-- ===== src/Tests/Starts.antt =====
-- Starts of the broker: its parts, and its signing key.
use kube_argus.Base.{
  false, ℕ, String, ◌<>◌, ap, ◌∙◌, List, Option, Result, arith, nat_eq_iff, ◌==◌, ◌≡◌, refl, none,
  some, [], ◌∷◌, ok, err, if◌then◌else◌,
}
use kube_argus.Config.Load.{Settings, resolve}
use kube_argus.Config.Load.Sufficient.{Sufficient}
use kube_argus.Idp.{google}
use kube_argus.Idp as Idp
use kube_argus.Idp.Google as Google
use kube_argus.Broker.Steps.{trim_right_slash}
use kube_argus.Broker.Signer.{
  Keys, Jwk, Signer, parse_block, parse_rsa_private_key, signer_of, new_signer,
}
use kube_argus.Broker.Signer as Signing
use kube_argus.Broker.Signer.Replicas.{Jose, IsJose, replicas-verify}
use kube_argus.Proxy.{after_prefix}
use mathlib.Core.Path.{subst}
use Prim.Native.Char.{code}
use Prim.Native.String.append
use kube_argus.Server.Start.{Host, memory, World, Running}
use kube_argus.Tests.Wiring.{settings}
use kube_argus.Tests.Variables.{variables, hours, quoted}
use kube_argus.Tests.Idps.{calls}

-- A block is its text, and a key is its number; PKCS #8 holds no other kind of key here.
abbrev keys : Keys
keys = record {
  World = ℕ;
  Block = String;
  Rsa = String;
  Private = String;
  Jws = String;
  generate = λ w. (ok "fresh", w);
  pem_decode = λ t. if t == "junk" then none else some t;
  parse_pkcs1 = λ b. if b == "old" then ok b else err "not PKCS #1";
  parse_pkcs8 = λ b. ok b;
  as_rsa = λ k. some k;
  thumbprint = λ k. ok "kid";
  new_jws = λ k kid. ok k;
}

abbrev signer : Signer keys
signer = record {
  issuer = "https://broker";
  public = record { key = "new"; algorithm = "RS256"; purpose = "sig"; key_id = "kid" };
  jws = "new";
}

-- A signed text stands behind the key.
abbrev jose : Jose keys
jose = record { sign = λ j m. ok (j <> m); verify = opened }
  where
    opened : List (Jwk keys) → String → Option String
    opened [] raw = none
    opened (x ∷ xs) raw = after_prefix x.key raw

after_prefix-append : (p m : String) → after_prefix p (p <> m) ≡ some m
unfolding after_prefix
after_prefix-append String.[] m = ap some (append.nil m)
after_prefix-append (String.◌∷◌ c p) m =
    ap (after_prefix (String.◌∷◌ c p)) (append.cons c p m)
    ∙ rw ((nat_eq_iff (code c) (code c)).1 refl, if◌then◌else◌) (after_prefix-append p m)

ok-text : (x y : String) → ◌≡◌ {A = Result String String} (ok x) (ok y) → x ≡ y
ok-text x y h = ground arith

jose-IsJose : IsJose keys jose
jose-IsJose = record {
  verified = λ x j m raw _ _ made signed.
      subst (λ r. after_prefix x.key r ≡ some m)
        (ap (λ k. k <> m) (ok-text x.key j made) ∙ ok-text (j <> m) raw signed)
        (after_prefix-append x.key m);
}

replicas-verify_example :
    (signer.issuer ≡ signer.issuer)
    × (jose.verify (Signing.jwks keys signer) "newhello" ≡ some "hello")
unfolding Signing.new new_signer parse_rsa_private_key parse_block signer_of trim_right_slash
replicas-verify_example =
    replicas-verify keys jose jose-IsJose settings "new" 0 5 signer signer "hello" "newhello" refl
      refl refl refl

no_pem :
    (Signing.new keys settings "junk" 0).0
    ≡ err "id_token signer: ID_TOKEN_SIGNING_KEY is not valid PEM"
unfolding Signing.new new_signer parse_rsa_private_key
no_pem = refl

abbrev host : Host
host = record {
  idp = calls;
  keys = keys;
  Os = ℕ;
  RedisClient = String;
  duration = hours;
  quoted = quoted;
  clients = λ w. (ok tt, w);
  new_client = λ o. o.addr;
  ping = λ c w. (ok tt, w);
}

abbrev world : World host
world = record { idp = 0; keys = 0; os = 0 }

abbrev loaded : Settings
loaded = resolve quoted hours variables

abbrev started : Running host
started = record {
  settings = loaded;
  backend = memory;
  provider = google (record {
    oauth = record {
      client_id = "id";
      client_secret = "secret";
      redirect_url = "https://broker/callback";
      endpoint = "https://accounts.google.com";
      scopes = "openid" ∷ "email" ∷ "profile" ∷ [];
    };
    audience = "id";
    dir = "root@example.com";
  });
  signer = record {
    issuer = "https://broker";
    public = record { key = "fresh"; algorithm = "RS256"; purpose = "sig"; key_id = "kid" };
    jws = "fresh";
  };
  tls = false;
}
