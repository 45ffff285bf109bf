-- ===== src/Broker/Signer/Shared.antt =====
-- What replicas of the broker share: the key of service/internal/broker/signer.go.
use kube_argus.Base.{
  String, ◌<>◌, ◌==◌, ◌≡◌, refl, ap, ◌∙◌, Bool, false, some, ◌⊎◌, inl, inr, Result, ok, err, arith,
  Option-cases, Outcome-cases, if◌then◌else◌,
}
use kube_argus.Config.{Config}
use kube_argus.Broker.Steps.{trim_right_slash}
use kube_argus.Broker.Signer.{
  Keys, Signer, parse_block, parse_rsa_private_key, signer_of, with_key, new_signer, new,
}

module _ (K : Keys) where
  -- The key stands in the block of the text, as PKCS #1 or else as PKCS #8.
  pub record ParsedFrom (pem : String) (k : K.Rsa) : Type 0 where
    pub block : K.Block
    pub decoded : K.pem_decode pem ≡ some block
    pub key :
        (K.parse_pkcs1 block ≡ ok k)
        ⊎ ((any : K.Private) × (K.parse_pkcs8 block ≡ ok any) × (K.as_rsa any ≡ some k))

  -- A signer that any replica with this configuration and this key comes to.
  pub record SharedBy (c : Config) (pem : String) (s : Signer K) : Type 0 where
    pub issuer : s.issuer ≡ trim_right_slash c.issuer
    pub parsed : ParsedFrom pem s.public.key
    pub key_id : K.thumbprint s.public.key ≡ ok s.public.key_id
    pub jws : K.new_jws s.public.key s.public.key_id ≡ ok s.jws
    pub algorithm : s.public.algorithm ≡ "RS256"
    pub purpose : s.public.purpose ≡ "sig"
    pub elsewhere : (w : K.World) → new K c pem w ≡ (ok s, w)

  parse_block-key :
      (block : K.Block) (k : K.Rsa)
      → parse_block K block ≡ ok k
      → (K.parse_pkcs1 block ≡ ok k)
        ⊎ ((any : K.Private) × (K.parse_pkcs8 block ≡ ok any) × (K.as_rsa any ≡ some k))
  unfolding parse_block
  parse_block-key block k h = elim (Outcome-cases (K.parse_pkcs1 block)) [
    | inl (x, e) ↦ ground arith
    | inr (m, e) ↦ elim (Outcome-cases (K.parse_pkcs8 block)) [
      | inr (n, g) ↦ ground arith
      | inl (any, g) ↦ elim (Option-cases (K.as_rsa any)) [
        | inl a ↦ ground arith
        | inr (x, a) ↦ inr (any, g, ground arith)
      ]
    ]
  ]

  parse-ParsedFrom :
      (pem : String) (k : K.Rsa) → parse_rsa_private_key K pem ≡ ok k → ParsedFrom pem k
  unfolding parse_rsa_private_key
  parse-ParsedFrom pem k h = elim (Option-cases (K.pem_decode pem)) [
    | inl e ↦ ground arith
    | inr (block, e) ↦ record {
      block = block;
      decoded = e;
      key = parse_block-key block k (ground arith);
    }
  ]

  -- A signer of a key.
  abbrev IsSignerOf : String → K.Rsa → Signer K → Type 0
  IsSignerOf issuer k s =
      (s.issuer ≡ issuer)
      × (s.public.key ≡ k)
      × (K.thumbprint k ≡ ok s.public.key_id)
      × (K.new_jws k s.public.key_id ≡ ok s.jws)
      × (s.public.algorithm ≡ "RS256")
      × (s.public.purpose ≡ "sig")

  signer_of-key :
      (issuer : String) (k : K.Rsa) (s : Signer K)
      → signer_of K issuer k ≡ ok s
      → IsSignerOf issuer k s
  unfolding signer_of
  signer_of-key issuer k s h = elim (Outcome-cases (K.thumbprint k)) [
    | inr (m, e) ↦ ground arith
    | inl (kid, e) ↦ elim (Outcome-cases (K.new_jws k kid)) [
      | inr (m, g) ↦ ground arith
      | inl (jws, g) ↦ ground arith
    ]
  ]

  keyed :
      (issuer pem : String) (w : K.World)
      → (pem == "") ≡ false
      → new_signer K issuer pem w ≡ (with_key K issuer false (parse_rsa_private_key K pem), w)
  unfolding new_signer
  keyed issuer pem w h = rw (h, if◌then◌else◌) refl

  new-ok :
      (c : Config) (pem : String) (w : K.World) (s : Signer K) (g : Bool)
      → new_signer K (trim_right_slash c.issuer) pem w ≡ (ok (s, g), w)
      → new K c pem w ≡ (ok s, w)
  unfolding new
  new-ok c pem w s g h = ground arith

  new-err :
      (c : Config) (pem : String) (w : K.World) (e : String)
      → new_signer K (trim_right_slash c.issuer) pem w ≡ (err e, w)
      → (new K c pem w).0 ≡ err ("id_token signer: " <> e)
  unfolding new
  new-err c pem w e h = ground arith

  ok-err : (s : Signer K) (m : String) (r : Result String (Signer K)) → r ≡ ok s → r ≡ err m → ⊥
  ok-err s m r p q = ground arith

  pub ok-same : (s t : Signer K) (r : Result String (Signer K)) → r ≡ ok s → r ≡ ok t → s ≡ t
  ok-same s t r p q = ground arith

  -- A key that is read and a signer that is made for it.
  with-key :
      (c : Config) (pem : String) (k : K.Rsa) (s : Signer K)
      → (pem == "") ≡ false
      → parse_rsa_private_key K pem ≡ ok k
      → signer_of K (trim_right_slash c.issuer) k ≡ ok s
      → (w : K.World) → new K c pem w ≡ (ok s, w)
  with-key c pem k s h p q w =
      new-ok c pem w s false
        (rw (keyed (trim_right_slash c.issuer) pem w h) (rw p (rw (q, with_key) refl)))

  signer-SharedBy :
      (c : Config) (pem : String) (k : K.Rsa) (s : Signer K)
      → (pem == "") ≡ false
      → parse_rsa_private_key K pem ≡ ok k
      → signer_of K (trim_right_slash c.issuer) k ≡ ok s
      → SharedBy c pem s
  signer-SharedBy c pem k s h p q =
      let (i, same, kid, jws, alg, use_for) = signer_of-key (trim_right_slash c.issuer) k s q in
      record {
        issuer = i;
        parsed = rw same (parse-ParsedFrom pem k p);
        key_id = ap K.thumbprint same ∙ kid;
        jws = ap (λ x. K.new_jws x s.public.key_id) same ∙ jws;
        algorithm = alg;
        purpose = use_for;
        elsewhere = with-key c pem k s h p q;
      }

  unread :
      (c : Config) (pem : String) (w : K.World) (e : String)
      → (pem == "") ≡ false
      → with_key K (trim_right_slash c.issuer) false (parse_rsa_private_key K pem) ≡ err e
      → (new K c pem w).0 ≡ err ("id_token signer: " <> e)
  unread c pem w e h p =
      new-err c pem w e (keyed (trim_right_slash c.issuer) pem w h ∙ ap (λ r. (r, w)) p)

  pub new-SharedBy :
      (c : Config) (pem : String) (w : K.World) (s : Signer K)
      → (pem == "") ≡ false
      → (new K c pem w).0 ≡ ok s
      → SharedBy c pem s
  new-SharedBy c pem w s h n = elim (Outcome-cases (parse_rsa_private_key K pem)) [
    | inr (e, p) ↦
        absurd (
          ok-err s _ _ n (unread c pem w e h (ap (with_key K (trim_right_slash c.issuer) false) p)))
    | inl (k, p) ↦ elim (Outcome-cases (signer_of K (trim_right_slash c.issuer) k)) [
      | inr (e, q) ↦ absurd (ok-err s _ _ n (unread c pem w e h (rw p (rw (q, with_key) refl))))
      | inl (t, q) ↦
          let same = ok-same t s _ (ap (λ x. x.0) (with-key c pem k t h p q w)) n in
          rw⁻¹ same (signer-SharedBy c pem k t h p q)
    ]
  ]
