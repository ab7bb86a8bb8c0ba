-- ===== src/Admission/Total.antt =====
-- When Admit returns, and a mutated pod that comes back for validation.
use karydia.Common.{Bool, true, false, ◌≡◌, ◌≢◌, some, arith, ◌==◌, Bool-cases, inl, inr}
use karydia.Common.Run.{ok, returns, panics}
use karydia.Kube.{Namespace, Pod, ServiceAccount}
use karydia.Kube.Custom.{KarydiaConfig}
use karydia.Kube.Review.{AdmissionRequest, AdmissionReview, allow_admission_response}
use karydia.Admission.Types.{KarydiaAdmission, Externals}
use karydia.Admission.Status.{get_pod_status}
use karydia.Admission.Patch.{apply}
use karydia.Admission.Pod.{pod_patches}
use karydia.Admission.ServiceAccount.{
  get_automount_service_account_token_setting, mutate_service_account, validate_service_account,
}
use karydia.Admission.Harden.Again.{validate_pod-apply}
use karydia.Admission.Handler.{
  kind_pod, same_kind, should_ignore_event, decode_pod, get_namespace_from_admission_request,
  admit_pod, admit_service_account, admit_kind, admit,
}

account-ne-panics :
    (ext : Externals) (k : KarydiaAdmission) (config : KarydiaConfig) (req : AdmissionRequest)
    (m : Bool) (s : ServiceAccount)
    → k.karydia_config ≡ some config
    → admit_service_account ext k req m s ≢ panics
unfolding admit_service_account mutate_service_account validate_service_account
    get_automount_service_account_token_setting
account-ne-panics ext k config req m s c = ground arith

kind-ne-panics :
    (ext : Externals) (k : KarydiaAdmission) (config : KarydiaConfig) (req : AdmissionRequest)
    (m : Bool)
    → k.karydia_config ≡ some config
    → admit_kind ext k req m ≢ panics
unfolding admit_kind
kind-ne-panics ext k config req m c = grind (arith, account-ne-panics)

-- With a configuration, Admit answers every review that holds a request: it does not panic.
pub admit-ne-panics :
    (ext : Externals) (k : KarydiaAdmission) (config : KarydiaConfig) (ar : AdmissionReview)
    (req : AdmissionRequest) (m : Bool)
    → k.karydia_config ≡ some config
    → ar.request ≡ some req
    → admit ext k ar m ≢ panics
unfolding admit should_ignore_event
admit-ne-panics ext k config ar req m c e = ground (arith, kind-ne-panics ext k config req m c)

admit_pod-apply :
    (ext : Externals) (k : KarydiaAdmission) (pod r : Pod) (ns : Namespace) (req : AdmissionRequest)
    → apply (pod_patches k pod ns).operations pod ≡ some r
    → get_namespace_from_admission_request ext req ≡ ok ns
    → admit_pod ext k req false r ≡ allow_admission_response
unfolding admit_pod
admit_pod-apply ext k pod r ns req patched found =
    elim (Bool-cases (get_pod_status r == "Terminating")) [
      | inl gone ↦ rw gone
      | inr there ↦ rw (there, found) (validate_pod-apply k pod r ns patched)
    ]

kind-apply :
    (ext : Externals) (k : KarydiaAdmission) (r : Pod) (req : AdmissionRequest)
    → req.kind ≡ kind_pod
    → decode_pod ext req.object_raw ≡ ok r
    → admit_kind ext k req false ≡ returns (admit_pod ext k req false r)
unfolding admit_kind
kind-apply ext k r req kind decoded =
    let same : same_kind req.kind kind_pod ≡ true = rw kind in rw (same, decoded)

-- A pod that comes back for validation after the patch of its mutation was applied is allowed, if the
-- plugin is asked about the same namespace under the same configuration.
pub admit-apply :
    (ext : Externals) (k : KarydiaAdmission) (pod r : Pod) (ns : Namespace) (ar : AdmissionReview)
    (req : AdmissionRequest)
    → apply (pod_patches k pod ns).operations pod ≡ some r
    → ar.request ≡ some req
    → req.kind ≡ kind_pod
    → decode_pod ext req.object_raw ≡ ok r
    → get_namespace_from_admission_request ext req ≡ ok ns
    → admit ext k ar false ≡ returns allow_admission_response
unfolding admit should_ignore_event
admit-apply ext k pod r ns ar req patched asked kind decoded found =
    ground
      (arith, kind-apply ext k r req kind decoded, admit_pod-apply ext k pod r ns req patched found)
