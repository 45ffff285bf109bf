-- ===== src/Broker/Signer/Replicas.antt =====
-- Replicas of the broker verify the tokens of each other: the signer of
-- service/internal/broker/signer.go and the keys that /jwks shows.
use mathlib.Core.Path.{subst}
use kube_argus.Base.{String, ◌==◌, ◌≡◌, refl, ap, false, Option, some, List, [], ◌∷◌, Result, ok}
use kube_argus.Config.{Config}
use kube_argus.Broker.Signer.{Keys, Jwk, Signer, jwks, new}
use kube_argus.Broker.Signer.Shared.{SharedBy, new-SharedBy, ok-same}

-- The library of JOSE: signing a text, and verifying one against a key set.
pub record Jose (K : Keys) : Type 0 where
  pub sign : K.Jws → String → Result String String
  pub verify : List (Jwk K) → String → Option String

-- What a signer for a key and its id has signed, the set of that RSA key for signatures verifies.
pub record IsJose (K : Keys) (J : Jose K) : Type 0 where
  pub verified :
      (x : Jwk K) (j : K.Jws) (m raw : String)
      → x.algorithm ≡ "RS256"
      → x.purpose ≡ "sig"
      → K.new_jws x.key x.key_id ≡ ok j
      → J.sign j m ≡ ok raw
      → J.verify (x ∷ []) raw ≡ some m

module _ (K : Keys) (J : Jose K) (L : IsJose K J) where
  own-verify :
      (c : Config) (pem : String) (s : Signer K) (m raw : String)
      → SharedBy K c pem s
      → J.sign s.jws m ≡ ok raw
      → J.verify (jwks K s) raw ≡ some m
  unfolding jwks
  own-verify c pem s m raw h r = L.verified s.public s.jws m raw h.algorithm h.purpose h.jws r

  -- Two brokers that start with one signing key and the same settings, each at its own time, have the
  -- same issuer, and what the one signs, the keys that the other shows at /jwks verify, if the JOSE
  -- library verifies what it has signed.
  pub replicas-verify :
      (c : Config) (pem : String) (w w' : K.World) (s s' : Signer K) (m raw : String)
      → (pem == "") ≡ false
      → (new K c pem w).0 ≡ ok s
      → (new K c pem w').0 ≡ ok s'
      → J.sign s.jws m ≡ ok raw
      → (s'.issuer ≡ s.issuer) × (J.verify (jwks K s') raw ≡ some m)
  replicas-verify c pem w w' s s' m raw g n n' r =
      let h = new-SharedBy K c pem w s g n in
      let same = ok-same K s s' _ (ap (λ x. x.0) (h.elsewhere w')) n' in
      subst (λ x. (x.issuer ≡ s.issuer) × (J.verify (jwks K x) raw ≡ some m)) same
        (refl, own-verify c pem s m raw h r)
