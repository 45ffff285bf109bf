-- ===== src/Model.antt =====
-- service/internal/model/model.go: what the broker passes between its parts.
use kube_argus.Base.{ℕ, String, Bool, List}

pub record Membership : Type 0 where
  pub gid : String
  pub name : String
  pub domain : String

pub record Identity : Type 0 where
  pub subject : String
  pub email : String
  pub email_verified : Bool
  pub domain : String
  pub name : String
  pub groups : List Membership

-- A minted token and its life in seconds.
pub record Token : Type 0 where
  pub access_token : String
  pub expires_in : ℕ
