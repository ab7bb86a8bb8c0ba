-- ===== src/Tests/Admissions.antt =====
-- The admission plugin and the webhook at work.
use karydia.Common.{
  ◌≡◌, ◌≢◌, ◌↔◌, refl, arith, eq_iff, true, false, none, some, [], ◌∷◌, not_nil, All, ◌≤◌,
}
use karydia.Common.Run.{ok, returns, panics}
use karydia.Kube.{Pod}
use karydia.Kube.Review.{
  AdmissionRequest, AdmissionReview, AdmissionResponse, allow_admission_response,
}
use karydia.Admission.Types.{KarydiaAdmission, Setting, Externals, no_patches}
use karydia.Admission.Status.{get_pod_status}
use karydia.Admission.Patch.{apply}
use karydia.Admission.Pod.{
  get_seccomp_profile_setting, get_security_context_setting, pod_patches, pod_errors, validate_pod,
}
use karydia.Admission.ServiceAccount.{
  get_automount_service_account_token_setting, service_account_patches, service_account_errors,
}
use karydia.Admission.Handler.{kind_pod, admit, decode_pod, get_namespace_from_admission_request}
use karydia.Admission.Harden.{harden}
use karydia.Admission.Harden.Laws.{apply-pod_patches}
use karydia.Admission.Harden.Again.{validate_pod-apply, pod_patches-apply}
use karydia.Admission.Responses.{IsProper, admit-IsProper}
use karydia.Admission.Total.{admit-ne-panics, admit-apply}
use karydia.Admission.Settings.{
  precedence, annotation, plugin, settings-precedence, enforcement_ignores_annotations,
  get_automount-panics,
}
use karydia.Admission.Accounts.{IsConcerned, patches-iff-errors}
use karydia.Admission.Terminating.{get_pod_status-Terminating}
use karydia.Webhook.{Webhook, admit as webhook_admit}
use karydia.Webhook.Verdict.{patch_count, first_patch, admit-verdict}
use karydia.Admission.AccountPatch.{
  apply_to_account, harden_account, service_account_patches-apply, service_account_patches-again,
}
use karydia.Tests.Data.{shop, plain_shop, config_of, lenient_plugin, cart, default_account}

abbrev hardened_cart : Pod
hardened_cart = harden lenient_plugin shop cart

apply-pod_patches_example :
    apply (pod_patches lenient_plugin cart shop).operations cart
    ≡ some (harden lenient_plugin shop cart)
apply-pod_patches_example = apply-pod_patches lenient_plugin cart shop

validate_pod-apply_example :
    validate_pod lenient_plugin hardened_cart shop ≡ allow_admission_response
validate_pod-apply_example =
    validate_pod-apply lenient_plugin cart hardened_cart shop apply-pod_patches_example

pod_patches-apply_example : pod_patches lenient_plugin hardened_cart shop ≡ no_patches
pod_patches-apply_example =
    pod_patches-apply lenient_plugin cart hardened_cart shop apply-pod_patches_example

abbrev request : AdmissionRequest
request = record {
  uid = "7";
  kind = kind_pod;
  name = "cart";
  namespace = "shop";
  operation = "CREATE";
  object_raw = [];
}

abbrev review : AdmissionReview
review = record { request = some request; response = none }

-- The API server has the namespace, and the bytes of every pod are those of the hardened cart.
abbrev externals : Externals
externals = record {
  deserialize_pod = λ raw. ok hardened_cart;
  deserialize_service_account = λ raw. ok default_account;
  get_namespace = λ name. ok shop;
  marshal = λ operations. some [];
}

admit-apply_example : admit externals lenient_plugin review false ≡ returns allow_admission_response
unfolding get_namespace_from_admission_request decode_pod
admit-apply_example =
    admit-apply externals lenient_plugin cart hardened_cart shop review request
      apply-pod_patches_example refl refl refl refl

admit-IsProper_example : IsProper false allow_admission_response
admit-IsProper_example =
    admit-IsProper externals lenient_plugin review false allow_admission_response
      admit-apply_example

admit-ne-panics_example : admit externals lenient_plugin review true ≢ panics
admit-ne-panics_example =
    admit-ne-panics externals lenient_plugin (config_of false) review request true refl refl

settings-precedence_example :
    (get_seccomp_profile_setting (plugin (config_of false)) shop
      ≡ precedence
          (annotation "karydia.gardener.cloud/seccompProfile" shop)
          shop
          (config_of false)
          "runtime/default")
    × (get_security_context_setting (plugin (config_of false)) shop
        ≡ precedence
            (annotation "karydia.gardener.cloud/podSecurityContext" shop)
            shop
            (config_of false)
            "none")
    × (get_automount_service_account_token_setting (plugin (config_of false)) shop
        ≡ returns (
            precedence
              (annotation "karydia.gardener.cloud/automountServiceAccountToken" shop)
              shop
              (config_of false)
              "change-default"))
settings-precedence_example = settings-precedence (config_of false) shop

enforcement_ignores_annotations_example :
    (pod_patches (plugin (config_of true)) cart shop
      ≡ pod_patches (plugin (config_of true)) cart plain_shop)
    × (pod_errors (plugin (config_of true)) cart shop
        ≡ pod_errors (plugin (config_of true)) cart plain_shop)
    × (get_automount_service_account_token_setting (plugin (config_of true)) shop
        ≡ get_automount_service_account_token_setting (plugin (config_of true)) plain_shop)
enforcement_ignores_annotations_example =
    enforcement_ignores_annotations (config_of true) shop plain_shop cart refl refl
      (ground (arith, eq_iff "shop" "kube-system"))

abbrev unconfigured : KarydiaAdmission
unconfigured = record { karydia_config = none }

get_automount-panics_example :
    (get_automount_service_account_token_setting unconfigured plain_shop ≡ panics) ↔ (
      (unconfigured.karydia_config ≡ none)
      × (annotation "karydia.gardener.cloud/automountServiceAccountToken" plain_shop ≡ none))
get_automount-panics_example = get_automount-panics unconfigured plain_shop

abbrev change_default : Setting
change_default = record { value = "change-default"; src = "config" }

patches-iff-errors_example :
    (((service_account_patches default_account change_default).operations ≢ [])
      ↔ IsConcerned change_default default_account)
    × ((service_account_errors default_account change_default ≢ [])
        ↔ IsConcerned change_default default_account)
patches-iff-errors_example = patches-iff-errors default_account change_default

get_pod_status-Terminating_example :
    (get_pod_status cart ≡ "Terminating") ↔ (not_nil cart.meta.deletion_timestamp ≡ true)
get_pod_status-Terminating_example =
    get_pod_status-Terminating cart (ground (arith, eq_iff "Running" "Terminating"))
      (ground (arith, eq_iff "" "Terminating"))

abbrev patched : AdmissionResponse
patched = record {
  uid = "";
  allowed = true;
  result = none;
  patch = some (91 ∷ 93 ∷ []);
  patch_type = some "JSONPatch";
}

-- A plugin that allows, and one that patches.
abbrev two_plugins : Webhook
two_plugins = record {
  admission_plugins = (λ ar m. returns allow_admission_response) ∷ (λ ar m. returns patched) ∷ [];
}

admit-verdict_example :
    (r : AdmissionResponse) × (webhook_admit two_plugins review true ≡ returns r)
    × ((r.allowed ≡ true) ↔ (
        All (λ x. x.allowed ≡ true) (allow_admission_response ∷ patched ∷ [])
        × (patch_count (allow_admission_response ∷ patched ∷ []) ≤ 1)))
    × (r.allowed ≡ true → r.patch ≡ first_patch none (allow_admission_response ∷ patched ∷ []))
admit-verdict_example =
    admit-verdict two_plugins (allow_admission_response ∷ patched ∷ []) review true
      (refl, (refl, tt))

service_account_patches-apply_example :
    apply_to_account
      (service_account_patches default_account change_default).operations
      default_account
    ≡ some (harden_account change_default default_account)
service_account_patches-apply_example = service_account_patches-apply default_account change_default

service_account_patches-again_example :
    let r = harden_account change_default default_account in
    (service_account_errors r change_default ≡ [])
    × (service_account_patches r change_default ≡ no_patches)
service_account_patches-again_example =
    service_account_patches-again default_account (harden_account change_default default_account)
      change_default service_account_patches-apply_example
