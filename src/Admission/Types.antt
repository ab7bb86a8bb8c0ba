-- ===== src/Admission/Types.antt =====
-- admission.go: the plugin's state, its settings and its patches.
use karydia.Common.{
  String, Bool, false, not, ◌&&◌, ◌||◌, Option, none, some, List, [], ◌==◌, not_nil, if◌then◌else◌,
}
use karydia.Common.Decimal.{ℤ}
use karydia.Common.Dict.{Dict}
use karydia.Common.Run.{Result}
use karydia.Kube.{Namespace, Pod, ServiceAccount, SecurityContext}
use karydia.Kube.Review.{Bytes}
use karydia.Kube.Custom.{KarydiaConfig, KarydiaConfigSpec}

pub record KarydiaAdmission : Type 0 where
  pub karydia_config : Option KarydiaConfig

-- New, with the configuration of its argument.
unfoldable pub new : Option KarydiaConfig → KarydiaAdmission
new config = record { karydia_config = config }

unfoldable pub update_config : KarydiaConfig → KarydiaAdmission → KarydiaAdmission
update_config config k = record k { karydia_config = some config }

pub record Setting : Type 0 where
  pub value : String
  pub src : String

-- The dynamic value of a patch operation: what the program puts there.
pub data PatchValue : Type 0 where
  text : String → PatchValue
  number : ℤ → PatchValue
  flag : Bool → PatchValue
  text_map : Dict String → PatchValue
  security_context : SecurityContext → PatchValue

pub record PatchOperation : Type 0 where
  pub op : String
  pub path : String
  pub value : PatchValue

pub record Patches : Type 0 where
  pub operations : List PatchOperation
  pub annotated : Bool

-- The zero value of `Patches`.
abbrev pub no_patches : Patches
no_patches = record { operations = []; annotated = false }

-- What the plugin calls and does not implement: the deserializer of scheme.Codecs at the two kinds,
-- the API server's answer for a namespace, and json.Marshal.
pub record Externals : Type 0 where
  pub deserialize_pod : Bytes → Result Pod
  pub deserialize_service_account : Bytes → Result ServiceAccount
  pub get_namespace : String → Result Namespace
  pub marshal : List PatchOperation → Option Bytes

unfoldable pub to_bytes : Externals → Patches → Option Bytes
to_bytes ext patches = ext.marshal patches.operations

-- The value of a missing key is the empty text.
abbrev pub or_empty : Option String → String
or_empty none = ""
or_empty (some s) = s

-- k.karydiaConfig != nil && k.karydiaConfig.Spec.Enforcement == false
abbrev pub is_lenient : Option KarydiaConfig → Bool
is_lenient none = false
is_lenient (some config) = not config.spec.enforcement

-- The branch that getSeccompProfileSetting and getSecurityContextSetting share, at the namespace's
-- annotation and the field of the configuration.
unfoldable pub pick_setting :
    Option String → String → Option KarydiaConfig → (KarydiaConfigSpec → String) → Setting
pick_setting annotation ns_name config field =
    if not_nil annotation && (ns_name == "kube-system" || is_lenient config)
    then record { value = or_empty annotation; src = "namespace" }
    else elim config [
      | none ↦ record { value = or_empty annotation; src = "" }
      | some c ↦ record { value = field c.spec; src = "config" }
    ]
