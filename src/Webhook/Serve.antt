-- ===== src/Webhook/Serve.antt =====
-- pkg/webhook/webhook.go: Serve, from the HTTP request to the reply.
use karydia.Common.{ℕ, String, Bool, not, Option, none, some, [], ◌∷◌, ◌==◌, if◌then◌else◌}
use karydia.Common.Run.{Error, Result, ok, err, Run, returns, deref, ◌>>=◌}
use karydia.Kube.Review.{
  Bytes, AdmissionRequest, AdmissionReview, AdmissionResponse, err_to_admission_response,
}
use karydia.Webhook.{Webhook, admit}

-- The parts of a request that Serve reads; the body may be nil.
pub record HttpRequest (Body : Type 0) : Type 0 where
  pub method : String
  pub content_type : String
  pub body : Option Body

-- What is sent: http.Error with a code and a text, or the bytes of a review.
pub data Reply : Type 0 where
  http_error : ℕ → String → Reply
  written : Bytes → Reply

-- The calls of the standard library and of the deserializer: reading a body through
-- http.MaxBytesReader; http.StatusText; Decode, which fills a review and returns an error or nil; and
-- json.Marshal.
pub record Wire (Body : Type 0) : Type 0 where
  pub read_limited : ℕ → Body → Result Bytes
  pub status_text : ℕ → String
  pub decode : Bytes → AdmissionReview × Option Error
  pub marshal : AdmissionReview → Result Bytes

module _ {Body : Type 0} (wire : Wire Body) where
  -- http.Error(w, http.StatusText(code), code)
  abbrev pub refuse : ℕ → Reply
  refuse code = http_error code (wire.status_text code)

  abbrev pub max_bytes : ℕ
  max_bytes = 32000

  -- A nil body is read as no bytes.
  unfoldable pub read_body : Option Body → Result Bytes
  read_body none = ok []
  read_body (some b) = wire.read_limited max_bytes b

  -- The response before its UID is set. The log line reads through the request.
  unfoldable pub response_to :
      Webhook → Bool → AdmissionReview × Option Error → Run AdmissionResponse
  response_to wh m (requested, some e) = returns (err_to_admission_response e)
  response_to wh m (requested, none) = deref requested.request >>= λ req. admit wh requested m

  unfoldable pub send : AdmissionRequest → AdmissionResponse → Reply
  send req response =
      elim (wire.marshal
        (record { request = none; response = some (record response { uid = req.uid }) })) [
          | err e ↦ refuse 500
          | ok bytes ↦ written bytes
        ]

  -- Serve behind its tests of the body.
  unfoldable pub serve_body : Webhook → Bool → Bytes → Run Reply
  serve_body wh m body = response_to wh m (wire.decode body) >>= λ response.
      deref (wire.decode body).0.request >>= λ req. returns (send req response)

  unfoldable pub serve_read : Webhook → Bool → Result Bytes → Run Reply
  serve_read wh m (err e) = returns (refuse 500)
  serve_read wh m (ok []) = returns (http_error 400 "empty body")
  serve_read wh m (ok (b ∷ bs)) = serve_body wh m (b ∷ bs)

  unfoldable pub serve : Webhook → HttpRequest Body → Bool → Run Reply
  serve wh r m =
      if not (r.method == "POST")
      then returns (refuse 405)
      else if not (r.content_type == "application/json")
      then returns (refuse 415)
      else serve_read wh m (read_body r.body)
