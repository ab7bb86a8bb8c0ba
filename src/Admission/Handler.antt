-- ===== src/Admission/Handler.antt =====
-- admission.go: Admit and the functions that it calls.
use Prim.Native.String.{◌++◌}
use karydia.Common.{Bool, not, ◌&&◌, ◌==◌, if◌then◌else◌}
use karydia.Common.Run.{errorf, Result, ok, err, Run, returns, deref, ◌>>=◌}
use karydia.Kube.{Namespace, Pod, ServiceAccount}
use karydia.Kube.Review.{
  Bytes, GroupVersionKind, AdmissionRequest, AdmissionReview, AdmissionResponse,
  allow_admission_response, err_to_admission_response,
}
use karydia.Admission.Types.{KarydiaAdmission, Externals}
use karydia.Admission.Status.{get_pod_status}
use karydia.Admission.Pod.{mutate_pod, validate_pod}
use karydia.Admission.ServiceAccount.{mutate_service_account, validate_service_account}

abbrev pub kind_pod : GroupVersionKind
kind_pod = record { group = ""; version = "v1"; kind = "Pod" }

abbrev pub kind_service_account : GroupVersionKind
kind_service_account = record { group = ""; version = "v1"; kind = "ServiceAccount" }

-- `==` of the structs
abbrev pub same_kind : GroupVersionKind → GroupVersionKind → Bool
same_kind a b = a.group == b.group && a.version == b.version && a.kind == b.kind

unfoldable pub should_ignore_event : AdmissionReview → Run Bool
should_ignore_event ar = do
  req ← deref ar.request
  returns (not (req.operation == "CREATE") && not (req.operation == "UPDATE"))

unfoldable pub decode_pod : Externals → Bytes → Result Pod
decode_pod ext raw = ext.deserialize_pod raw

unfoldable pub decode_service_account : Externals → Bytes → Result ServiceAccount
decode_service_account ext raw = ext.deserialize_service_account raw

unfoldable pub get_namespace_from_admission_request :
    Externals → AdmissionRequest → Result Namespace
get_namespace_from_admission_request ext req =
    if req.namespace == ""
    then err (errorf "received request with empty namespace")
    else elim (ext.get_namespace req.namespace) [
      | ok ns ↦ ok ns
      | err e ↦ err (errorf ("failed to determine pod's namespace: " ++ e.message))
    ]

-- The branch of a pod that was decoded.
unfoldable pub admit_pod :
    Externals → KarydiaAdmission → AdmissionRequest → Bool → Pod → AdmissionResponse
admit_pod ext k req mutation_allowed pod =
    if get_pod_status pod == "Terminating"
    then allow_admission_response
    else elim (get_namespace_from_admission_request ext req) [
      | err e ↦ err_to_admission_response e
      | ok ns ↦ if mutation_allowed then mutate_pod ext k pod ns else validate_pod k pod ns
    ]

-- The branch of a service account that was decoded.
unfoldable pub admit_service_account :
    Externals → KarydiaAdmission → AdmissionRequest → Bool → ServiceAccount → Run AdmissionResponse
admit_service_account ext k req mutation_allowed s =
    elim (get_namespace_from_admission_request ext req) [
      | err e ↦ returns (err_to_admission_response e)
      | ok ns ↦
          if mutation_allowed
          then mutate_service_account ext k s ns
          else validate_service_account k s ns
    ]

-- The switch over the kind of the request.
unfoldable pub admit_kind :
    Externals → KarydiaAdmission → AdmissionRequest → Bool → Run AdmissionResponse
admit_kind ext k req mutation_allowed =
    if same_kind req.kind kind_pod
    then elim (decode_pod ext req.object_raw) [
      | err e ↦ returns (err_to_admission_response e)
      | ok pod ↦ returns (admit_pod ext k req mutation_allowed pod)
    ]
    else if same_kind req.kind kind_service_account
    then elim (decode_service_account ext req.object_raw) [
      | err e ↦ returns (err_to_admission_response e)
      | ok s ↦ admit_service_account ext k req mutation_allowed s
    ]
    else returns allow_admission_response

unfoldable pub admit : Externals → KarydiaAdmission → AdmissionReview → Bool → Run AdmissionResponse
admit ext k ar mutation_allowed = do
  ignored ← should_ignore_event ar
  if ignored
      then returns allow_admission_response
      else do req ← deref ar.request; admit_kind ext k req mutation_allowed
