-- ===== src/Kube/Custom.antt =====
-- pkg/apis/karydia/v1alpha1/types.go: karydia's custom resources.
use karydia.Common.{String, Bool}
use karydia.Kube.{ObjectMeta}

pub record KarydiaConfigSpec : Type 0 where
  pub enforcement : Bool
  pub automount_service_account_token : String
  pub seccomp_profile : String
  pub network_policies : String
  pub pod_security_context : String

pub record KarydiaConfigStatus : Type 0 where
  pub service_token : String

pub record TypeMeta : Type 0 where
  pub kind : String
  pub api_version : String

pub record KarydiaConfig : Type 0 where
  pub type_meta : TypeMeta
  pub meta : ObjectMeta
  pub spec : KarydiaConfigSpec
  pub status : KarydiaConfigStatus

-- The network policy specification is a type of Kubernetes, of which the program reads only the bytes.
pub record KarydiaNetworkPolicy (Spec : Type 0) : Type 0 where
  pub type_meta : TypeMeta
  pub meta : ObjectMeta
  pub spec : Spec
