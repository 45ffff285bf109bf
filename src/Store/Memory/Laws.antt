-- ===== src/Store/Memory/Laws.antt =====
-- The in-process backend meets the contract of a store.
use mathlib.Core.Path.{fun_ext}
use kube_argus.Base.{ℕ, ◌+◌, ◌≡◌, refl, String, none, ok}
use kube_argus.Base.Dict.{Dict, lookup, insert, remove, lookup-insert, lookup-remove}
use kube_argus.Store.Types.{Entry, fetch}
use kube_argus.Store.Contract.{Store, View, IsStore, NeverFails, update, entry}
use kube_argus.Store.Memory.{
  Memory, save_auth_request, take_auth_request, save_code, take_code, save_refresh, take_refresh,
}

abbrev pub memory_store : Store
memory_store = record {
  State = Memory;
  save_auth_request = save_auth_request;
  take_auth_request = take_auth_request;
  save_code = save_code;
  take_code = take_code;
  save_refresh = save_refresh;
  take_refresh = take_refresh;
}

abbrev pub entries : Memory → View
entries m = record {
  auth = λ k. lookup k m.auth;
  codes = λ k. lookup k m.codes;
  refresh = λ k. lookup k m.refresh;
}

lookups-insert :
    {V : Type 0} (k : String) (v : V) (exp : ℕ) (m : Dict (Entry V))
    → (λ j. lookup j (insert k (record { val = v; exp = exp }) m))
      ≡ update k (entry v exp) (λ j. lookup j m)
lookups-insert k v exp m = fun_ext λ j. lookup-insert k j _ m

lookups-remove :
    {V : Type 0} (k : String) (m : Dict V)
    → (λ j. lookup j (remove k m)) ≡ update k none (λ j. lookup j m)
lookups-remove k m = fun_ext λ j. lookup-remove k j m

fetch-none : {V : Type 0} (now : ℕ) (v : V) → fetch now none ≡ ok v → ⊥
unfolding fetch
fetch-none now v h = cc

-- The laws, over the maps as they are read.
pub memory_laws : IsStore memory_store
unfolding save_auth_request take_auth_request save_code take_code save_refresh take_refresh
memory_laws = record {
  view = entries;
  save_auth_request_law =
      λ now k v ttl m _ _ i. record (entries m) { auth = lookups-insert k v (now + ttl) m.auth i };
  save_code_law = λ now k v ttl m _ _ i. record (entries m) {
    codes = lookups-insert k v (now + ttl) m.codes i;
  };
  save_refresh_law = λ now k v ttl m _ _ i. record (entries m) {
    refresh = lookups-insert k v (now + ttl) m.refresh i;
  };
  take_auth_request_law =
      λ now k m v h. (h, λ i. record (entries m) { auth = lookups-remove k m.auth i });
  take_code_law =
      λ now k m v h. (h, λ i. record (entries m) { codes = lookups-remove k m.codes i });
  take_refresh_law =
      λ now k m v h. (h, λ i. record (entries m) { refresh = lookups-remove k m.refresh i });
  absent_code_law = λ now k m gone v h. fetch-none now v (rw gone at h);
  absent_refresh_law = λ now k m gone v h. fetch-none now v (rw gone at h);
}

-- The in-process store keeps the contract and never fails: every save succeeds and is stored under its
-- key alone, to expire at the time of the call plus the time to live; every take answers by the entry
-- and the time, and has then removed the key.
pub memory_store-IsStore : (L : IsStore memory_store) × NeverFails memory_store L.view
unfolding save_auth_request take_auth_request save_code take_code save_refresh take_refresh
memory_store-IsStore = (
  memory_laws,
  unfold memory_laws in
      record {
        auth_saved = λ now k v ttl m. refl;
        code_saved = λ now k v ttl m. refl;
        refresh_saved = λ now k v ttl m. refl;
        auth_taken =
            λ now k m. (refl, λ i. record (entries m) { auth = lookups-remove k m.auth i });
        code_taken =
            λ now k m. (refl, λ i. record (entries m) { codes = lookups-remove k m.codes i });
        refresh_taken =
            λ now k m. (refl, λ i. record (entries m) { refresh = lookups-remove k m.refresh i });
      },
)

-- A take of a code answers by what the view has, so it does not fail for another reason.
pub take_code-fetch :
    (now : ℕ) (k : String) (m : Memory)
    → (take_code now k m).0 ≡ fetch now ((memory_laws.view m).codes k)
unfolding take_code memory_laws
take_code-fetch now k m = refl
