-- ===== src/Store/Redis/Refines.antt =====
-- The redis backend meets the contract of a store.
use kube_argus.Base.{ℕ, ◌+◌, ◌≡◌, ap, ◌∙◌, String, ◌<>◌, Option, none, some, arith, ok}
use kube_argus.Store.Types.{Entry, fetch}
use kube_argus.Store.Contract.{View, IsStoreFor, update, entry}
use kube_argus.Store.Redis.{Client, Codecs, redis_store}
use kube_argus.Store.Redis.Keys.{
  auth_code, auth_refresh, code_auth, code_refresh, refresh_auth, refresh_code,
}
use kube_argus.Store.Redis.Commands.{
  IsMillis, IsClient, IsCodec, decode, read, decode-entry, read-update, read-other, save-stored,
  take-taken,
}

absent : {V : Type 0} (now : ℕ) (v : V) (o : Option (Entry V)) → o ≡ none → fetch now o ≡ ok v → ⊥
unfolding fetch
absent now v none e h = ground arith
absent now v (some x) e h = ground arith

-- All three encodings are read back.
pub record AreCodecs (J : Codecs) : Type 0 where
  pub auth : IsCodec J.auth
  pub codes : IsCodec J.codes
  pub refresh : IsCodec J.refresh

module _ (R : Client) (L : IsClient R) (J : Codecs) (I : AreCodecs J) where
  entries : (String → Option (Entry String)) → View
  entries f = record {
    auth = read J.auth "auth:" f;
    codes = read J.codes "code:" f;
    refresh = read J.refresh "refresh:" f;
  }

  set_auth :
      (k : String) (o : Option (Entry String)) (f : String → Option (Entry String))
      → entries (update ("auth:" <> k) o f)
        ≡ record (entries f) { auth = update k (decode J.auth o) (read J.auth "auth:" f) }
  unfolding entries
  set_auth k o f i = record {
    auth = read-update J.auth "auth:" k o f i;
    codes = read-other J.codes "code:" "auth:" k o f (auth_code k) i;
    refresh = read-other J.refresh "refresh:" "auth:" k o f (auth_refresh k) i;
  }

  set_code :
      (k : String) (o : Option (Entry String)) (f : String → Option (Entry String))
      → entries (update ("code:" <> k) o f)
        ≡ record (entries f) { codes = update k (decode J.codes o) (read J.codes "code:" f) }
  unfolding entries
  set_code k o f i = record {
    auth = read-other J.auth "auth:" "code:" k o f (code_auth k) i;
    codes = read-update J.codes "code:" k o f i;
    refresh = read-other J.refresh "refresh:" "code:" k o f (code_refresh k) i;
  }

  set_refresh :
      (k : String) (o : Option (Entry String)) (f : String → Option (Entry String))
      → entries (update ("refresh:" <> k) o f) ≡ record (entries f) {
        refresh = update k (decode J.refresh o) (read J.refresh "refresh:" f);
      }
  unfolding entries
  set_refresh k o f i = record {
    auth = read-other J.auth "auth:" "refresh:" k o f (refresh_auth k) i;
    codes = read-other J.codes "code:" "refresh:" k o f (refresh_code k) i;
    refresh = read-update J.refresh "refresh:" k o f i;
  }

  redis_laws : IsStoreFor IsMillis (redis_store R J)
  unfolding entries read decode
  redis_laws = record {
    view = λ s. entries (L.view s);
    save_auth_request_law = λ now k v ttl s a h.
        let (b, d, p) = save-stored R L J.auth I.auth now ("auth:" <> k) v ttl s a h in
        ap entries p
        ∙ set_auth k (entry b (now + ttl)) (L.view s)
        ∙ ap (λ o. record (entries (L.view s)) { auth = update k o (entries (L.view s)).auth })
            (decode-entry J.auth b v (now + ttl) d);
    save_code_law = λ now k v ttl s a h.
        let (b, d, p) = save-stored R L J.codes I.codes now ("code:" <> k) v ttl s a h in
        ap entries p
        ∙ set_code k (entry b (now + ttl)) (L.view s)
        ∙ ap (λ o. record (entries (L.view s)) { codes = update k o (entries (L.view s)).codes })
            (decode-entry J.codes b v (now + ttl) d);
    save_refresh_law = λ now k v ttl s a h.
        let (b, d, p) = save-stored R L J.refresh I.refresh now ("refresh:" <> k) v ttl s a h in
        ap entries p
        ∙ set_refresh k (entry b (now + ttl)) (L.view s)
        ∙ ap
            (λ o. record (entries (L.view s)) { refresh = update k o (entries (L.view s)).refresh })
            (decode-entry J.refresh b v (now + ttl) d);
    take_auth_request_law = λ now k s v h.
        let (f, p) = take-taken R L J.auth I.auth now ("auth:" <> k) s v h in
        (f, ap entries p ∙ set_auth k none (L.view s));
    take_code_law = λ now k s v h.
        let (f, p) = take-taken R L J.codes I.codes now ("code:" <> k) s v h in
        (f, ap entries p ∙ set_code k none (L.view s));
    take_refresh_law = λ now k s v h.
        let (f, p) = take-taken R L J.refresh I.refresh now ("refresh:" <> k) s v h in
        (f, ap entries p ∙ set_refresh k none (L.view s));
    absent_code_law = λ now k s gone v h.
        absent now v _ gone (take-taken R L J.codes I.codes now ("code:" <> k) s v h).0;
    absent_refresh_law = λ now k s gone v h.
        absent now v _ gone (take-taken R L J.refresh I.refresh now ("refresh:" <> k) s v h).0;
  }
