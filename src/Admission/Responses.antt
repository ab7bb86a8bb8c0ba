-- ===== src/Admission/Responses.antt =====
-- What the plugin answers: the form of its responses, when it answers at all, and a mutated pod that
-- comes back for validation.
use karydia.Common.{
  String, Bool, true, false, not, ◌≡◌, inl, inr, Option, none, some, List, [], ◌∷◌, arith, ◌==◌,
  not_nil, if◌then◌else◌, Bool-cases,
}
use karydia.Common.Run.{
  Error, returns, deref, ◌>>=◌, Result-cases, Holds, Holds-bind, Holds-returns,
}
use karydia.Kube.{Namespace, Pod, ServiceAccount}
use karydia.Kube.Review.{
  Bytes, AdmissionRequest, AdmissionReview, AdmissionResponse, allow_admission_response,
  err_to_admission_response, validating_admission_response, validation_error_admission_response,
  mutating_admission_response,
}
use karydia.Admission.Types.{KarydiaAdmission, Externals}
use karydia.Admission.Status.{get_pod_status}
use karydia.Admission.Pod.{mutate_pod, validate_pod}
use karydia.Admission.ServiceAccount.{
  get_automount_service_account_token_setting, mutate_service_account, validate_service_account,
}
use karydia.Admission.Handler.{
  kind_pod, kind_service_account, same_kind, should_ignore_event, decode_pod,
  decode_service_account, get_namespace_from_admission_request, admit_pod, admit_service_account,
  admit_kind, admit,
}

-- A response allows or explains; only one that allows has a patch, and its type goes with it; and
-- without permission to mutate there is no patch.
pub record IsProper (mutation_allowed : Bool) (r : AdmissionResponse) : Type 0 where
  pub explained : not_nil r.result ≡ not r.allowed
  pub typed : not_nil r.patch_type ≡ not_nil r.patch
  pub permitted : r.allowed ≡ false → r.patch ≡ none
  pub unpatched : mutation_allowed ≡ false → r.patch ≡ none

IsProper-err : (m : Bool) (e : Error) → IsProper m (err_to_admission_response e)
unfolding err_to_admission_response
IsProper-err m e = ground arith

IsProper-allow : (m : Bool) → IsProper m allow_admission_response
unfolding allow_admission_response
IsProper-allow m = ground arith

IsProper-validating :
    (m : Bool) (errors : List String) → IsProper m (validating_admission_response errors)
unfolding validating_admission_response validation_error_admission_response
IsProper-validating m [] = IsProper-allow m
IsProper-validating m (e ∷ es) = ground arith

IsProper-mutating : (patch : Option Bytes) → IsProper true (mutating_admission_response patch)
unfolding mutating_admission_response
IsProper-mutating none = ground arith
IsProper-mutating (some b) = ground arith

IsProper-pod :
    (ext : Externals) (k : KarydiaAdmission) (req : AdmissionRequest) (m : Bool) (pod : Pod)
    → IsProper m (admit_pod ext k req m pod)
unfolding admit_pod mutate_pod validate_pod
IsProper-pod ext k req m pod = elim (Bool-cases (get_pod_status pod == "Terminating")) [
  | inl gone ↦ rw gone (IsProper-allow m)
  | inr there ↦ rw there (elim (Result-cases (get_namespace_from_admission_request ext req)) [
    | inl (ns, found) ↦ rw found (IsProper-pod_in m ns)
    | inr (e, failed) ↦ rw failed (IsProper-err m e)
  ])
]
  where
    IsProper-pod_in :
        (m : Bool) (ns : Namespace)
        → IsProper m (if m then mutate_pod ext k pod ns else validate_pod k pod ns)
    IsProper-pod_in true ns = IsProper-mutating _
    IsProper-pod_in false ns = IsProper-validating false _

IsProper-account_in :
    (ext : Externals) (k : KarydiaAdmission) (s : ServiceAccount) (ns : Namespace) (m : Bool)
    → Holds
        (IsProper m)
        (if m then mutate_service_account ext k s ns else validate_service_account k s ns)
unfolding mutate_service_account validate_service_account
IsProper-account_in ext k s ns true =
    Holds-bind (IsProper true) (get_automount_service_account_token_setting k ns) _
      (λ setting. IsProper-mutating _)
IsProper-account_in ext k s ns false =
    Holds-bind (IsProper false) (get_automount_service_account_token_setting k ns) _
      (λ setting. IsProper-validating false _)

IsProper-account :
    (ext : Externals) (k : KarydiaAdmission) (req : AdmissionRequest) (m : Bool)
    (s : ServiceAccount)
    → Holds (IsProper m) (admit_service_account ext k req m s)
unfolding admit_service_account
IsProper-account ext k req m s =
    elim (Result-cases (get_namespace_from_admission_request ext req)) [
      | inl (ns, found) ↦ rw (found, Holds) (IsProper-account_in ext k s ns m)
      | inr (e, failed) ↦ rw (failed, Holds) (IsProper-err m e)
    ]

IsProper-kind :
    (ext : Externals) (k : KarydiaAdmission) (req : AdmissionRequest) (m : Bool)
    → Holds (IsProper m) (admit_kind ext k req m)
unfolding admit_kind
IsProper-kind ext k req m = elim (Bool-cases (same_kind req.kind kind_pod)) [
  | inl pods ↦ rw pods (elim (Result-cases (decode_pod ext req.object_raw)) [
    | inl (pod, decoded) ↦ rw (decoded, Holds) (IsProper-pod ext k req m pod)
    | inr (e, failed) ↦ rw (failed, Holds) (IsProper-err m e)
  ])
  | inr others ↦ rw others (elim (Bool-cases (same_kind req.kind kind_service_account)) [
    | inl accounts ↦ rw accounts (elim (Result-cases (decode_service_account ext req.object_raw)) [
      | inl (s, decoded) ↦ rw (decoded, Holds) (IsProper-account ext k req m s)
      | inr (e, failed) ↦ rw (failed, Holds) (IsProper-err m e)
    ])
    | inr unknown ↦ rw unknown (IsProper-allow m)
  ])
]

IsProper-run :
    (ext : Externals) (k : KarydiaAdmission) (ar : AdmissionReview) (m : Bool)
    → Holds (IsProper m) (admit ext k ar m)
unfolding admit
IsProper-run ext k ar m =
    Holds-bind (IsProper m) (should_ignore_event ar) _ (λ ignored. IsProper-unless ignored)
  where
    IsProper-unless :
        (ignored : Bool)
        → Holds (IsProper m) (
            if ignored
            then returns allow_admission_response
            else (deref ar.request >>= λ req. admit_kind ext k req m))
    IsProper-unless true = IsProper-allow m
    IsProper-unless false =
        Holds-bind (IsProper m) (deref ar.request) _ (λ req. IsProper-kind ext k req m)

-- Every response of the plugin is proper: one that denies has a message and no patch, one that allows
-- has no message, the patch type is set exactly with a patch, and a call without permission to mutate
-- returns no patch.
pub admit-IsProper :
    (ext : Externals) (k : KarydiaAdmission) (ar : AdmissionReview) (m : Bool)
    (r : AdmissionResponse)
    → admit ext k ar m ≡ returns r
    → IsProper m r
admit-IsProper ext k ar m r e = Holds-returns (IsProper m) _ r (IsProper-run ext k ar m) e
