-- ===== src/Kube/Review.antt =====
-- The admission API: reviews, requests and responses, and the responses that
-- pkg/k8sutil/admission.go builds.
use karydia.Common.{ℕ, String, Bool, true, false, Option, none, some, List, [], ◌∷◌}
use karydia.Common.Run.{Error}
use karydia.Common.Text.{format_slice}

abbrev pub Bytes : Type 0
Bytes = List ℕ

pub record GroupVersionKind : Type 0 where
  pub group : String
  pub version : String
  pub kind : String

pub record AdmissionRequest : Type 0 where
  pub uid : String
  pub kind : GroupVersionKind
  pub name : String
  pub namespace : String
  pub operation : String
  pub object_raw : Bytes

-- `result` is the message of the response's *Status.
pub record AdmissionResponse : Type 0 where
  pub uid : String
  pub allowed : Bool
  pub result : Option String
  pub patch : Option Bytes
  pub patch_type : Option String

pub record AdmissionReview : Type 0 where
  pub request : Option AdmissionRequest
  pub response : Option AdmissionResponse

abbrev response : Bool → Option String → Option Bytes → Option String → AdmissionResponse
response allowed result patch patch_type = record {
  uid = "";
  allowed = allowed;
  result = result;
  patch = patch;
  patch_type = patch_type;
}

unfoldable pub err_to_admission_response : Error → AdmissionResponse
err_to_admission_response e = response false (some e.message) none none

unfoldable pub validation_error_admission_response : List String → AdmissionResponse
validation_error_admission_response errors = response false (some (format_slice errors)) none none

unfoldable pub allow_admission_response : AdmissionResponse
allow_admission_response = response true none none none

unfoldable pub validating_admission_response : List String → AdmissionResponse
validating_admission_response [] = allow_admission_response
validating_admission_response (e ∷ errors) = validation_error_admission_response (e ∷ errors)

-- A nil slice of bytes is `none`.
unfoldable pub mutating_admission_response : Option Bytes → AdmissionResponse
mutating_admission_response none = response true none none none
mutating_admission_response (some bytes) = response true none (some bytes) (some "JSONPatch")
