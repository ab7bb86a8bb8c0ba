-- ===== src/Webhook.antt =====
-- pkg/webhook/webhook.go: the webhook that asks the admission plugins.
pub mod Verdict
pub mod Serve
pub mod Answers
use karydia.Common.{
  String, Bool, true, false, not, ◌&&◌, Option, none, some, List, [], ◌∷◌, ◌++◌, not_nil, is_nil,
  if◌then◌else◌,
}
use karydia.Common.Run.{errorf, Run, returns, ◌>>=◌}
use karydia.Kube.Review.{
  AdmissionReview, AdmissionResponse, allow_admission_response, err_to_admission_response,
}

-- admission.AdmissionPlugin: Admit, at a review and the permission to mutate. A plugin that returns a
-- nil response makes its caller panic.
abbrev pub AdmissionPlugin : Type 0
AdmissionPlugin = AdmissionReview → Bool → Run AdmissionResponse

pub record Webhook : Type 0 where
  pub admission_plugins : List AdmissionPlugin

-- New
unfoldable pub new : Webhook
new = record { admission_plugins = [] }

unfoldable pub register_admission_plugin : AdmissionPlugin → Webhook → Webhook
register_admission_plugin p wh = record wh { admission_plugins = wh.admission_plugins ++ p ∷ [] }

abbrev pub already_patched : AdmissionResponse
already_patched =
    err_to_admission_response (errorf "cannot admit with patches, request is patched already")

-- What the loop does with one response: stop with a response, or go on with responseWithPatches.
pub data Next : Type 0 where
  stop : AdmissionResponse → Next
  continue : Option AdmissionResponse → Next

unfoldable pub look_at : AdmissionResponse → Option AdmissionResponse → Next
look_at response patched =
    if not response.allowed
    then stop response
    else if not_nil response.patch && is_nil patched
    then continue (some response)
    else if not_nil response.patch
    then stop already_patched
    else continue patched

-- The loop over the plugins that are left.
unfoldable pub admit_from :
    List AdmissionPlugin → AdmissionReview → Bool → Option AdmissionResponse → Run AdmissionResponse
admit_from [] ar m none = returns allow_admission_response
admit_from [] ar m (some r) = returns r
admit_from (p ∷ ps) ar m patched = p ar m >>= λ response. elim (look_at response patched) [
  | stop r ↦ returns r
  | continue patched' ↦ admit_from ps ar m patched'
]

unfoldable pub admit : Webhook → AdmissionReview → Bool → Run AdmissionResponse
admit wh ar m = admit_from wh.admission_plugins ar m none
