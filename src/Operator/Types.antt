-- ===== src/Operator/Types.antt =====
-- The custom resource of operator/api/v1/userauthenticationbind_types.go, and the fields that the
-- controller reads and writes of the Kubernetes objects. A time is a number of nanoseconds.
use kube_argus.Base.{ℕ, String, Option, List}
use kube_argus.Base.Dict.{Dict}

pub record Membership : Type 0 where
  pub gid : String
  pub name : String
  pub domain : String

pub record BindSpec : Type 0 where
  pub ttl : String
  pub domain : String
  pub user : String
  pub memberships : List Membership

-- `BindPhase`; `unset` is the empty text of a resource that no reconcile has seen.
pub data BindPhase : Type 0 where
  unset pending binding binded unbound failed : BindPhase

pub data ConditionStatus : Type 0 where
  is_true is_false is_unknown : ConditionStatus

pub record ServiceBind : Type 0 where
  pub ref : String
  pub status : BindPhase
  pub expires_at : Option ℕ

pub record Condition : Type 0 where
  pub kind : String
  pub status : ConditionStatus
  pub reason : String
  pub message : String

pub record BindStatus : Type 0 where
  pub conditions : List Condition
  pub sv : ServiceBind

-- `UserAuthenticationBind`, with the metadata that the controller uses.
pub record Bind : Type 0 where
  pub name : String
  pub namespace : String
  pub uid : String
  pub creation : ℕ
  pub deletion : Option ℕ
  pub finalizers : List String
  pub annotations : Dict String
  pub spec : BindSpec
  pub status : BindStatus

-- A ClusterRole, whose namespace is empty, or a Role.
pub record Role : Type 0 where
  pub name : String
  pub namespace : String
  pub annotations : Dict String

pub record Subject : Type 0 where
  pub kind : String
  pub name : String
  pub namespace : String

pub record RoleRef : Type 0 where
  pub api_group : String
  pub kind : String
  pub name : String

-- A ClusterRoleBinding, whose namespace is empty, or a RoleBinding.
pub record Binding : Type 0 where
  pub name : String
  pub namespace : String
  pub labels : Dict String
  pub role_ref : RoleRef
  pub subjects : List Subject

pub record ServiceAccount : Type 0 where
  pub name : String
  pub namespace : String
  pub uid : String
  pub controller : Option String

unfoldable pub BindPhase-discrete : Discrete BindPhase
BindPhase-discrete = hlevel

abbrev pub finalizer : String
finalizer = "kargus.io/finalizer"

abbrev pub group_annotation : String
group_annotation = "rbac.kargus.io/group"

abbrev pub renewed_at_annotation : String
renewed_at_annotation = "kargus.io/renewed-at"

abbrev pub owner_label : String
owner_label = "kargus.io/owned-by"

abbrev pub condition_ready : String
condition_ready = "Ready"

abbrev pub rbac_api_group : String
rbac_api_group = "rbac.authorization.k8s.io"

abbrev pub cluster_role_kind : String
cluster_role_kind = "ClusterRole"
