-- ===== src/Kube.antt =====
-- The Kubernetes objects that the program receives, with the fields that it reads or writes, and its
-- own custom resources (pkg/apis/karydia/v1alpha1/types.go). Pointers are options. A deep copy is the
-- value itself, since values here are never mutated in place.
pub mod Review
pub mod Custom
pub mod DeepCopy
use karydia.Common.{String, Bool, Option, List}
use karydia.Common.Decimal.{ℤ}
use karydia.Common.Dict.{Dict}

pub record ObjectMeta : Type 0 where
  pub name : String
  pub namespace : String
  pub resource_version : String
  pub annotations : Dict String
  pub deletion_timestamp : Option String

pub record Namespace : Type 0 where
  pub meta : ObjectMeta

pub record ServiceAccount : Type 0 where
  pub meta : ObjectMeta
  pub automount_service_account_token : Option Bool

pub record PodSecurityContext : Type 0 where
  pub run_as_user : Option ℤ
  pub run_as_group : Option ℤ

-- The security context of a container.
pub record SecurityContext : Type 0 where
  pub run_as_user : Option ℤ
  pub run_as_group : Option ℤ
  pub allow_privilege_escalation : Option Bool

pub record Container : Type 0 where
  pub name : String
  pub security_context : Option SecurityContext

pub record PodSpec : Type 0 where
  pub init_containers : List Container
  pub containers : List Container
  pub security_context : Option PodSecurityContext

pub record Waiting : Type 0 where
  pub reason : String

pub record Terminated : Type 0 where
  pub exit_code : ℤ
  pub signal : ℤ
  pub reason : String

-- At most one of a state's pointers is set in practice; the program does not rely on it.
pub record ContainerStatus : Type 0 where
  pub waiting : Option Waiting
  pub running : Option (Unit {0})
  pub terminated : Option Terminated
  pub ready : Bool

pub record PodStatus : Type 0 where
  pub phase : String
  pub init_container_statuses : List ContainerStatus
  pub container_statuses : List ContainerStatus

pub record Pod : Type 0 where
  pub meta : ObjectMeta
  pub spec : PodSpec
  pub status : PodStatus

pub record NetworkPolicy (Spec : Type 0) : Type 0 where
  pub meta : ObjectMeta
  pub spec : Spec
