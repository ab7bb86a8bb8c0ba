-- ===== src/Admission/ServiceAccount.antt =====
-- admission_service_account.go: the setting for service accounts, and their mutation and validation.
use karydia.Common.{
  String, Bool, false, not, ◌&&◌, ◌||◌, Option, none, some, List, [], ◌∷◌, ◌++◌, ◌==◌, is_nil,
  if◌then◌else◌,
}
use karydia.Common.Dict.{lookup, is_empty}
use karydia.Common.Run.{Run, returns, deref, ◌>>=◌}
use karydia.Common.Text.{concat, replace}
use karydia.Kube.{Namespace, ServiceAccount}
use karydia.Kube.Custom.{KarydiaConfig}
use karydia.Kube.Review.{
  AdmissionResponse, mutating_admission_response, validating_admission_response,
}
use karydia.Admission.Types.{
  KarydiaAdmission, Setting, PatchOperation, Patches, text, flag, text_map, no_patches, Externals,
  to_bytes, or_empty,
}

-- k.karydiaConfig != nil && k.karydiaConfig.Spec.Enforcement == true
abbrev pub is_strict : Option KarydiaConfig → Bool
is_strict none = false
is_strict (some config) = config.spec.enforcement

-- The configuration is read with no test for nil.
unfoldable pub get_automount_service_account_token_setting :
    KarydiaAdmission → Namespace → Run Setting
get_automount_service_account_token_setting k ns =
    let annotation =
      lookup "karydia.gardener.cloud/automountServiceAccountToken" ns.meta.annotations in
    if is_nil annotation || (not (ns.meta.name == "kube-system") && is_strict k.karydia_config)
    then deref k.karydia_config >>= (λ config.
      returns (record { value = config.spec.automount_service_account_token; src = "config" }))
    else returns (record { value = or_empty annotation; src = "namespace" })

abbrev pub automount_service_account_token_undefined : ServiceAccount → Bool
automount_service_account_token_undefined s = is_nil s.automount_service_account_token

unfoldable pub annotate_service_account : ServiceAccount → String → String → PatchOperation
annotate_service_account s key value =
    if is_empty s.meta.annotations
    then record { op = "add"; path = "/metadata/annotations"; value = text_map ((key, value) ∷ []) }
    else record {
      op = "add";
      path = concat ("/metadata/annotations/" ∷ replace b'/' "~1" key ∷ []);
      value = text value;
    }

abbrev pub automount_internal_key : String
automount_internal_key = "karydia.gardener.cloud/automountServiceAccountToken.internal"

-- The two operations that both branches of mutateServiceAccountTokenMount append.
unfoldable pub deny_automount : ServiceAccount → Setting → Patches → Patches
deny_automount s setting p = record p {
  operations =
      p.operations
      ++ record { op = "add"; path = "/automountServiceAccountToken"; value = flag false }
        ∷ annotate_service_account s automount_internal_key
            (concat (setting.src ∷ "/" ∷ setting.value ∷ []))
        ∷ [];
}

unfoldable pub mutate_service_account_token_mount : ServiceAccount → Setting → Patches → Patches
mutate_service_account_token_mount s setting p =
    if setting.value == "change-default"
    then (if automount_service_account_token_undefined s && s.meta.name == "default"
        then deny_automount s setting p
        else p)
    else if setting.value == "change-all"
    then (if automount_service_account_token_undefined s then deny_automount s setting p else p)
    else p

unfoldable pub validate_service_account_token_mount :
    ServiceAccount → Setting → List String → List String
validate_service_account_token_mount s setting errors =
    if setting.value == "change-default"
    then (if automount_service_account_token_undefined s && s.meta.name == "default"
        then errors ++ "implicit automount of default service account token not allowed" ∷ []
        else errors)
    else if setting.value == "change-all"
    then (if automount_service_account_token_undefined s
        then errors ++ "implicit automount of service account token not allowed" ∷ []
        else errors)
    else errors

-- The patches of mutateServiceAccount and the errors of validateServiceAccount at a setting.
unfoldable pub service_account_patches : ServiceAccount → Setting → Patches
service_account_patches s setting =
    if setting.value == ""
    then no_patches
    else mutate_service_account_token_mount s setting no_patches

unfoldable pub service_account_errors : ServiceAccount → Setting → List String
service_account_errors s setting =
    if setting.value == "" then [] else validate_service_account_token_mount s setting []

unfoldable pub mutate_service_account :
    Externals → KarydiaAdmission → ServiceAccount → Namespace → Run AdmissionResponse
mutate_service_account ext k s ns = do
  setting ← get_automount_service_account_token_setting k ns
  returns (mutating_admission_response (to_bytes ext (service_account_patches s setting)))

unfoldable pub validate_service_account :
    KarydiaAdmission → ServiceAccount → Namespace → Run AdmissionResponse
validate_service_account k s ns = do
  setting ← get_automount_service_account_token_setting k ns
  returns (validating_admission_response (service_account_errors s setting))
