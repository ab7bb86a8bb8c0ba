-- ===== src/Tests/Serving.antt =====
-- Serve on a posted review, with a deserializer that knows two bodies.
use karydia.Common.{
  ℕ, ◌≡◌, ◌↔◌, ◌≤◌, refl, true, false, Option, none, some, [], ◌∷◌, All, if◌then◌else◌, num_eq,
  ◌==◌,
}
use karydia.Common.Run.{Error, errorf, Result, ok, err, returns, panics}
use karydia.Kube.Review.{
  Bytes, AdmissionRequest, AdmissionReview, AdmissionResponse, allow_admission_response,
}
use karydia.Admission.Handler.{kind_pod}
use karydia.Webhook.{Webhook}
use karydia.Webhook.Verdict.{patch_count, first_patch}
use karydia.Webhook.Serve.{HttpRequest, Wire, read_body, serve}
use karydia.Webhook.Answers.{Posted, reply_of, answered, serve-verdict, serve-panics}

abbrev service_request : AdmissionRequest
service_request = record {
  uid = "42";
  kind = kind_pod;
  name = "cart";
  namespace = "shop";
  operation = "UPDATE";
  object_raw = [];
}

abbrev asked_review : AdmissionReview
asked_review = record { request = some service_request; response = none }

abbrev empty_review : AdmissionReview
empty_review = record { request = none; response = none }

-- Only the body that starts with 1 is a review.
abbrev decode_body : Bytes → AdmissionReview × Option Error
decode_body [] = (empty_review, some (errorf "empty"))
decode_body (b ∷ bs) =
    if num_eq b 1 then (asked_review, none) else (empty_review, some (errorf "bad body"))

-- Only a response under the UID 42 has bytes.
abbrev uid_bytes : Option AdmissionResponse → Result Bytes
uid_bytes none = err (errorf "no response")
uid_bytes (some a) = if a.uid == "42" then ok (52 ∷ 50 ∷ []) else err (errorf "other UID")

abbrev wire : Wire Bytes
wire = record {
  read_limited = λ limit body. ok body;
  status_text = λ code. "status";
  decode = decode_body;
  marshal = λ review. uid_bytes review.response;
}

abbrev posted_bytes : ℕ → HttpRequest Bytes
posted_bytes b = record { method = "POST"; content_type = "application/json"; body = some (b ∷ []) }

posted_bytes-Posted : (b : ℕ) → Posted wire (posted_bytes b) b []
unfolding read_body
posted_bytes-Posted b = record { post = refl; json = refl; readable = refl }

abbrev allowing : Webhook
allowing = record { admission_plugins = (λ ar m. returns allow_admission_response) ∷ [] }

serve-verdict_example :
    (a : AdmissionResponse) × (serve wire allowing (posted_bytes 1) false
      ≡ returns (reply_of wire (wire.marshal (answered wire a))))
    × (a.uid ≡ service_request.uid)
    × ((a.allowed ≡ true) ↔ (
        All (λ x. x.allowed ≡ true) (allow_admission_response ∷ [])
        × (patch_count (allow_admission_response ∷ []) ≤ 1)))
    × (a.allowed ≡ true → a.patch ≡ first_patch none (allow_admission_response ∷ []))
serve-verdict_example =
    serve-verdict wire allowing (posted_bytes 1) false 1 [] asked_review service_request
      (allow_admission_response ∷ []) (posted_bytes-Posted 1) refl refl (refl, tt)

serve-panics_example : serve wire allowing (posted_bytes 2) false ≡ panics
serve-panics_example =
    serve-panics wire allowing (posted_bytes 2) false 2 [] empty_review (some (errorf "bad body"))
      (posted_bytes-Posted 2) refl refl
