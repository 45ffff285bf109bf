-- ===== src/Broker/Signer.antt =====
-- The signing key: `newSigner`, `parseRSAPrivateKey` and `jwks` of service/internal/broker/signer.go, and
-- `New` of broker.go. The libraries of keys are parameters.
pub mod Shared
pub mod Replicas
use kube_argus.Base.{
  String, ◌<>◌, ◌==◌, Bool, true, false, Option, none, some, List, [], ◌∷◌, Result, ok, err, Exec,
  if◌then◌else◌,
}
use kube_argus.Config.{Config}
use kube_argus.Broker.Steps.{trim_right_slash}

pub record Keys : Type 1 where
  pub World : Type 0
  pub Block : Type 0
  -- A private RSA key, and any private key.
  pub Rsa : Type 0
  pub Private : Type 0
  pub Jws : Type 0
  -- `rsa.GenerateKey`
  pub generate : Exec World String Rsa
  pub pem_decode : String → Option Block
  pub parse_pkcs1 : Block → Result String Rsa
  pub parse_pkcs8 : Block → Result String Private
  -- `key.(*rsa.PrivateKey)`
  pub as_rsa : Private → Option Rsa
  -- `base64.RawURLEncoding` of the SHA-256 thumbprint of the public key.
  pub thumbprint : Rsa → Result String String
  -- `jose.NewSigner` for the key and its id.
  pub new_jws : Rsa → String → Result String Jws

-- A public key as /jwks shows it.
pub record Jwk (K : Keys) : Type 0 where
  pub key : K.Rsa
  pub algorithm : String
  pub purpose : String
  pub key_id : String

pub record Signer (K : Keys) : Type 0 where
  pub issuer : String
  pub public : Jwk K
  pub jws : K.Jws

module _ (K : Keys) where
  -- From the block on.
  unfoldable pub parse_block : K.Block → Result String K.Rsa
  parse_block block =
      let any = K.parse_pkcs8 block in
      elim (K.parse_pkcs1 block) [
        | ok k ↦ ok k
        | err _ ↦ elim any [
          | err e ↦ err ("parse signing key: " <> e)
          | ok key ↦ elim (K.as_rsa key) [
            | none ↦ err "ID_TOKEN_SIGNING_KEY must be an RSA private key"
            | some k ↦ ok k
          ]
        ]
      ]

  unfoldable pub parse_rsa_private_key : String → Result String K.Rsa
  parse_rsa_private_key pem = elim (K.pem_decode pem) [
    | none ↦ err "ID_TOKEN_SIGNING_KEY is not valid PEM"
    | some block ↦ parse_block block
  ]

  -- From the key on.
  unfoldable pub signer_of : String → K.Rsa → Result String (Signer K)
  signer_of issuer priv = elim (K.thumbprint priv) [
    | err e ↦ err e
    | ok kid ↦ elim (K.new_jws priv kid) [
      | err e ↦ err e
      | ok jws ↦ ok (record {
        issuer = issuer;
        public = record { key = priv; algorithm = "RS256"; purpose = "sig"; key_id = kid };
        jws = jws;
      })
    ]
  ]

  abbrev pub with_key : String → Bool → Result String K.Rsa → Result String (Signer K × Bool)
  with_key issuer generated (err e) = err e
  with_key issuer generated (ok priv) = elim (signer_of issuer priv) [
    | err e ↦ err e
    | ok s ↦ ok (s, generated)
  ]

  -- `newSigner`: the signer, and whether its key was generated.
  unfoldable pub new_signer : String → String → Exec K.World String (Signer K × Bool)
  new_signer issuer pem w =
      let (generated, w') = K.generate w in
      if pem == ""
      then (with_key issuer true generated, w')
      else (with_key issuer false (parse_rsa_private_key pem), w)

  -- `New`: the signer of the broker. A generated key is only logged.
  unfoldable pub new : Config → String → Exec K.World String (Signer K)
  new c pem w =
      let (r, w') = new_signer (trim_right_slash c.issuer) pem w in
      elim r [ err e ↦ (err ("id_token signer: " <> e), w') | ok (s, _) ↦ (ok s, w') ]

  unfoldable pub jwks : Signer K → List (Jwk K)
  jwks s = s.public ∷ []
