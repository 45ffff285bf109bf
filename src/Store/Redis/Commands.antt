-- ===== src/Store/Redis/Commands.antt =====
-- What the save and the take of service/internal/store/redis.go leave under their key.
use mathlib.Core.Path.{fun_ext}
use kube_argus.Base.{
  ltb, Bool-cases, suc, ◌*◌, ℕ, ◌+◌, ◌≡◌, refl, sym, ap, ◌∙◌, inl, inr, String, ◌<>◌, ◌==◌, Bool,
  true, false, Option, none, some, arith, Result, ok, err, if◌then◌else◌, Outcome-cases,
  Result-cases,
}
use kube_argus.Store.Types.{Entry, fetch, not_found, backend}
use kube_argus.Store.Contract.{update, entry, IsAnswer}
use kube_argus.Store.Redis.{RedisError, nil, failure, Client, Codec, save, decoded, take}
use kube_argus.Store.Redis.Keys.{same_prefix}

-- A positive number of whole milliseconds. The client keeps such a time to live as it is; it rounds any
-- other to milliseconds, and takes zero for none, so that the key never expires.
abbrev pub IsMillis : ℕ → Type 0
IsMillis ttl = (n : ℕ) × (ttl ≡ suc n * 1_000_000)

-- The documented behaviour of the two commands. Of a call that ends in an error, but for the answer that
-- there is no value, nothing is asked.
pub record IsClient (R : Client) : Type 1 where
  pub view : R.State → String → Option (Entry String)
  pub set_ok :
      (now : ℕ) (k b : String) (ttl : ℕ) (s : R.State)
      → IsMillis ttl
      → (R.set now k b ttl s).0 ≡ ok tt
      → view (R.set now k b ttl s).1 ≡ update k (entry b (now + ttl)) (view s)
  pub get_del_ok :
      (now : ℕ) (k b : String) (s : R.State)
      → (R.get_del now k s).0 ≡ ok b
      → (fetch now (view s k) ≡ ok b) × (view (R.get_del now k s).1 ≡ update k none (view s))
  pub get_del_nil :
      (now : ℕ) (k : String) (s : R.State)
      → (R.get_del now k s).0 ≡ err nil
      → fetch now (view s k) ≡ err not_found

-- What is encoded is decoded again.
pub record IsCodec {V : Type 0} (J : Codec V) : Type 0 where
  pub round : (v : V) (b : String) → J.marshal v ≡ ok b → J.unmarshal b ≡ ok v

module _ {V : Type 0} (J : Codec V) where
  entry_of : ℕ → Result String V → Option (Entry V)
  entry_of exp (ok v) = entry v exp
  entry_of exp (err e) = none

  unfoldable pub decode : Option (Entry String) → Option (Entry V)
  unfolding entry_of
  decode none = none
  decode (some e) = entry_of e.exp (J.unmarshal e.val)

  -- The entries under a prefix.
  unfoldable pub read : String → (String → Option (Entry String)) → String → Option (Entry V)
  read p f j = decode (f (p <> j))

  pub decode-entry :
      (b : String) (v : V) (exp : ℕ) → J.unmarshal b ≡ ok v → decode (entry b exp) ≡ entry v exp
  unfolding decode
  decode-entry b v exp h = rw h refl

  fetch-decode :
      (now : ℕ) (o : Option (Entry String)) (b : String) (v : V)
      → fetch now o ≡ ok b
      → J.unmarshal b ≡ ok v
      → fetch now (decode o) ≡ ok v
  unfolding fetch decode
  fetch-decode now none b v f h = ground arith
  fetch-decode now (some e) b v f h = ground arith

  fetch-decode_none :
      (now : ℕ) (o : Option (Entry String))
      → fetch now o ≡ err not_found
      → fetch now (decode o) ≡ err not_found
  unfolding fetch decode entry_of
  fetch-decode_none now none f = refl
  fetch-decode_none now (some e) f = elim (Outcome-cases (J.unmarshal e.val)) [
    | inl (v, p) ↦ rw p (elim (Bool-cases (ltb e.exp now)) [
      | inl l ↦ rw (l, if◌then◌else◌) refl
      | inr l ↦ let f' = rw (l, if◌then◌else◌) at f in ground arith
    ])
    | inr (m, p) ↦ rw p refl
  ]

  choose :
      (t : Bool) (o e : Option (Entry String))
      → decode (if t then o else e) ≡ (if t then decode o else decode e)
  choose true o e = refl
  choose false o e = refl

  pub read-update :
      (p k : String) (o : Option (Entry String)) (f : String → Option (Entry String))
      → read p (update (p <> k) o f) ≡ update k (decode o) (read p f)
  unfolding read
  read-update p k o f = fun_ext λ j. rw (same_prefix p k j) (choose (k == j) o (f (p <> j)))

  pub read-other :
      (p q k : String) (o : Option (Entry String)) (f : String → Option (Entry String))
      → ((j : String) → (q <> k == p <> j) ≡ false)
      → read p (update (q <> k) o f) ≡ read p f
  unfolding read
  read-other p q k o f n = fun_ext λ j. rw (n j, if◌then◌else◌) refl

module _ (R : Client) (L : IsClient R) {V : Type 0} (J : Codec V) (I : IsCodec J) where
  save-puts :
      (now : ℕ) (key : String) (v : V) (ttl : ℕ) (s : R.State) (b : String)
      → J.marshal v ≡ ok b
      → (R.set now key b ttl s).0 ≡ ok tt
      → save R J now key v ttl s ≡ (ok tt, (R.set now key b ttl s).1)
  unfolding save
  save-puts now key v ttl s b m h = ground arith

  unsaved :
      (now : ℕ) (key : String) (v : V) (ttl : ℕ) (s : R.State) (b e : String)
      → J.marshal v ≡ ok b
      → (R.set now key b ttl s).0 ≡ err e
      → (save R J now key v ttl s).0 ≡ ok tt
      → ⊥
  unfolding save
  unsaved now key v ttl s b e m p h = ground arith

  unencoded :
      (now : ℕ) (key : String) (v : V) (ttl : ℕ) (s : R.State) (e : String)
      → J.marshal v ≡ err e
      → (save R J now key v ttl s).0 ≡ ok tt
      → ⊥
  unfolding save
  unencoded now key v ttl s e m h = ground arith

  -- A save without an error has stored a text that is decoded to the value.
  pub save-stored :
      (now : ℕ) (key : String) (v : V) (ttl : ℕ) (s : R.State)
      → IsMillis ttl
      → (save R J now key v ttl s).0 ≡ ok tt
      → (b : String) × (J.unmarshal b ≡ ok v)
        × (L.view (save R J now key v ttl s).1 ≡ update key (entry b (now + ttl)) (L.view s))
  save-stored now key v ttl s a h = elim (Outcome-cases (J.marshal v)) [
    | inl (b, m) ↦ elim (Result-cases (R.set now key b ttl s).0) [
      | inl p ↦ (
        b,
        I.round v b m,
        ap (λ x. L.view x.1) (save-puts now key v ttl s b m p) ∙ L.set_ok now key b ttl s a p,
      )
      | inr (e, p) ↦ absurd (unsaved now key v ttl s b e m p h)
    ]
    | inr (e, m) ↦ absurd (unencoded now key v ttl s e m h)
  ]

  take-found :
      (now : ℕ) (key b : String) (s : R.State)
      → (R.get_del now key s).0 ≡ ok b
      → take R J now key s ≡ (decoded R J (J.unmarshal b), (R.get_del now key s).1)
  unfolding take
  take-found now key b s h = ground arith

  untaken :
      (now : ℕ) (key : String) (s : R.State) (v : V) (e : RedisError)
      → (R.get_del now key s).0 ≡ err e
      → (take R J now key s).0 ≡ ok v
      → ⊥
  unfolding take
  untaken now key s v nil p h = ground arith
  untaken now key s v (failure e) p h = ground arith

  undecoded : (r : Result String V) (v : V) → decoded R J r ≡ ok v → r ≡ ok v
  undecoded (ok w) v h = ground arith
  undecoded (err e) v h = ground arith

  -- A take without an error has read and removed such a text.
  pub take-taken :
      (now : ℕ) (key : String) (s : R.State) (v : V)
      → (take R J now key s).0 ≡ ok v
      → (fetch now (decode J (L.view s key)) ≡ ok v)
        × (L.view (take R J now key s).1 ≡ update key none (L.view s))
  take-taken now key s v h = elim (Outcome-cases (R.get_del now key s).0) [
    | inl (b, p) ↦
        let e = take-found now key b s p in
        let (f, law) = L.get_del_ok now key b s p in
        (
          fetch-decode J now (L.view s key) b v f
              (undecoded (J.unmarshal b) v (ap (λ x. x.0) (sym e) ∙ h)),
          ap (λ x. L.view x.1) e ∙ law,
        )
    | inr (e, p) ↦ absurd (untaken now key s v e p h)
  ]

  take-nil :
      (now : ℕ) (key : String) (s : R.State)
      → (R.get_del now key s).0 ≡ err nil
      → (take R J now key s).0 ≡ err not_found
  unfolding take
  take-nil now key s h = ground arith

  take-failure :
      (now : ℕ) (key e : String) (s : R.State)
      → (R.get_del now key s).0 ≡ err (failure e)
      → (take R J now key s).0 ≡ err (backend e)
  unfolding take
  take-failure now key e s h = ground arith

  unanswered :
      (now : ℕ) (key : String) (s : R.State) (e : RedisError)
      → (R.get_del now key s).0 ≡ err e
      → IsAnswer (take R J now key s).0 (fetch now (decode J (L.view s key)))
  unanswered now key s nil p = inl (
      take-nil now key s p
      ∙ sym (fetch-decode_none J now (L.view s key) (L.get_del_nil now key s p)))
  unanswered now key s (failure e) p = inr (e, take-failure now key e s p)

  -- A take answers by the entry and the time, unless redis or the decoding fails.
  pub take-IsAnswer :
      (now : ℕ) (key : String) (s : R.State)
      → IsAnswer (take R J now key s).0 (fetch now (decode J (L.view s key)))
  take-IsAnswer now key s = elim (Outcome-cases (R.get_del now key s).0) [
    | inr (e, p) ↦ unanswered now key s e p
    | inl (b, p) ↦
        let found = ap (λ x. x.0) (take-found now key b s p) in
        elim (Outcome-cases (J.unmarshal b)) [
          | inl (v, q) ↦ inl (
              found
              ∙ ap (decoded R J) q
              ∙ sym (fetch-decode J now (L.view s key) b v (L.get_del_ok now key b s p).0 q))
          | inr (e, q) ↦ inr (e, found ∙ ap (decoded R J) q)
        ]
  ]
