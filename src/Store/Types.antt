-- ===== src/Store/Types.antt =====
-- The stored values of service/internal/store/store.go, and what a read of one may answer.
use kube_argus.Base.{ℕ, String, Bool, Option, none, some, List, Result, ok, err, ltb, if◌then◌else◌}

pub record AuthRequest : Type 0 where
  pub client_id : String
  pub redirect_uri : String
  pub state : String
  pub nonce : String
  pub code_challenge : String
  pub code_challenge_method : String
  pub scope : String
  pub idp_nonce : String

pub record CodeGrant : Type 0 where
  pub client_id : String
  pub redirect_uri : String
  pub code_challenge : String
  pub nonce : String
  pub subject : String
  pub access_token : String
  pub id_token : String
  pub refresh_token : String
  pub expires_in : ℕ

pub record GroupRef : Type 0 where
  pub gid : String
  pub name : String
  pub domain : String

pub record RefreshGrant : Type 0 where
  pub client_id : String
  pub email : String
  pub subject : String
  pub name : String
  pub email_verified : Bool
  pub domain : String
  pub groups : List GroupRef

-- `ErrNotFound`, or an error of the backend.
pub data StoreError : Type 0 where
  not_found : StoreError
  backend : String → StoreError

-- A value and the time at which it expires, in nanoseconds.
pub record Entry (V : Type 0) : Type 0 where
  pub val : V
  pub exp : ℕ

-- The end of each `Take` method: absent, past its expiry (`time.Now().After(e.exp)`), or the value.
unfoldable pub fetch : {V : Type 0} → ℕ → Option (Entry V) → Result StoreError V
fetch now none = err not_found
fetch now (some e) = if ltb e.exp now then err not_found else ok e.val
