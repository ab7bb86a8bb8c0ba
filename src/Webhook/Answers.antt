-- ===== src/Webhook/Answers.antt =====
-- What Serve replies.
use karydia.Common.{
  ℕ, ◌≤◌, Bool, true, ◌≡◌, ◌↔◌, refl, ap, ◌∙◌, Option, none, some, List, ◌∷◌, All, ◌==◌,
}
use karydia.Common.Run.{Error, Result, ok, err, Run, returns, panics, deref, ◌>>=◌}
use karydia.Kube.Review.{
  Bytes, AdmissionRequest, AdmissionReview, AdmissionResponse, err_to_admission_response,
}
use karydia.Webhook.{Webhook, admit}
use karydia.Webhook.Verdict.{Answer, patch_count, first_patch, admit-verdict}
use karydia.Webhook.Serve.{
  HttpRequest, Reply, http_error, written, Wire, read_body, response_to, send, serve_body,
  serve_read, serve,
}

module _ {Body : Type 0} (wire : Wire Body) where
  -- A request for JSON that is posted, with a body that can be read and is not empty.
  pub record Posted (r : HttpRequest Body) (b : ℕ) (bs : Bytes) : Type 0 where
    pub post : r.method ≡ "POST"
    pub json : r.content_type ≡ "application/json"
    pub readable : read_body wire r.body ≡ ok (b ∷ bs)

  Posted-serve :
      (wh : Webhook) (r : HttpRequest Body) (m : Bool) (b : ℕ) (bs : Bytes)
      → Posted r b bs
      → serve wire wh r m ≡ serve_body wire wh m (b ∷ bs)
  unfolding serve serve_read
  Posted-serve wh r m b bs p =
      let post : (r.method == "POST") ≡ true = rw p.post refl in
      let json : (r.content_type == "application/json") ≡ true = rw p.json refl in
      rw (post, json, p.readable) refl

  -- What Serve does with the response, at the review's request.
  finish : Option AdmissionRequest → AdmissionResponse → Run Reply
  finish o a = deref o >>= λ req. returns (send wire req a)

  serve_body-decoded :
      (wh : Webhook) (m : Bool) (body : Bytes) (d : AdmissionReview × Option Error)
      → wire.decode body ≡ d
      → serve_body wire wh m body ≡ (response_to wire wh m d >>= finish d.0.request)
  unfolding serve_body finish
  serve_body-decoded wh m body d e =
      ap
        (λ x.
          response_to wire wh m x >>= (λ a. deref x.0.request >>= λ req. returns (send wire req a)))
        e

  response_to-admit :
      (wh : Webhook) (m : Bool) (ar : AdmissionReview) (req : AdmissionRequest)
      → ar.request ≡ some req
      → response_to wire wh m (ar, none) ≡ admit wh ar m
  unfolding response_to
  response_to-admit wh m ar req asked = ap (λ o. deref o >>= λ _. admit wh ar m) asked

  -- A posted review that is decoded and holds a request is answered by what the plugins say together.
  pub serve-admit :
      (wh : Webhook) (r : HttpRequest Body) (m : Bool) (b : ℕ) (bs : Bytes) (ar : AdmissionReview)
      (req : AdmissionRequest) (a : AdmissionResponse)
      → Posted r b bs
      → wire.decode (b ∷ bs) ≡ (ar, none)
      → ar.request ≡ some req
      → admit wh ar m ≡ returns a
      → serve wire wh r m ≡ returns (send wire req a)
  unfolding finish
  serve-admit wh r m b bs ar req a posted decoded asked ran =
      Posted-serve wh r m b bs posted
      ∙ serve_body-decoded wh m (b ∷ bs) (ar, none) decoded
      ∙ ap (λ x. x >>= finish ar.request) (response_to-admit wh m ar req asked ∙ ran)
      ∙ ap (λ o. finish o a) asked

  -- The reply with the bytes of a review, or with status 500 if it has none.
  abbrev pub reply_of : Result Bytes → Reply
  reply_of (ok bytes) = written bytes
  reply_of (err e) = http_error 500 (wire.status_text 500)

  -- The review that holds a response alone.
  abbrev pub answered : AdmissionResponse → AdmissionReview
  answered a = record { request = none; response = some a }

  send-reply_of :
      (req : AdmissionRequest) (a : AdmissionResponse)
      → send wire req a ≡ reply_of (wire.marshal (answered (record a { uid = req.uid })))
  unfolding send
  send-reply_of req a = by_answer (wire.marshal (answered (record a { uid = req.uid })))
    where
      by_answer :
          (r : Result Bytes)
          → (elim r [ err e ↦ http_error 500 (wire.status_text 500) | ok bytes ↦ written bytes ])
            ≡ reply_of r
      by_answer (err e) = refl
      by_answer (ok bytes) = refl

  -- If a posted review is decoded, holds a request, and every plugin returns, then Serve replies with the
  -- bytes of a review that holds no request and one response, or with status 500 if that review cannot be
  -- written as bytes. The response has the UID of the request, allows exactly when all plugins allow and at
  -- most one patches, and then carries that patch or none.
  pub serve-verdict :
      (wh : Webhook) (r : HttpRequest Body) (m : Bool) (b : ℕ) (bs : Bytes) (ar : AdmissionReview)
      (req : AdmissionRequest) (rs : List AdmissionResponse)
      → Posted r b bs
      → wire.decode (b ∷ bs) ≡ (ar, none)
      → ar.request ≡ some req
      → Answer wh.admission_plugins ar m rs
      → (a : AdmissionResponse) × (serve wire wh r m
          ≡ returns (reply_of (wire.marshal (answered a))))
        × (a.uid ≡ req.uid)
        × ((a.allowed ≡ true) ↔ (All (λ x. x.allowed ≡ true) rs × (patch_count rs ≤ 1)))
        × (a.allowed ≡ true → a.patch ≡ first_patch none rs)
  serve-verdict wh r m b bs ar req rs posted decoded asked answers =
      let (a, ran, allows, patched) = admit-verdict wh rs ar m answers in
      (
        record a { uid = req.uid },
        serve-admit wh r m b bs ar req a posted decoded asked ran
            ∙ ap (λ x. returns x) (send-reply_of req a),
        refl,
        allows,
        patched,
      )

  -- Serve panics on a posted body whose decoding gives a review with no request, with an error or without.
  pub serve-panics :
      (wh : Webhook) (r : HttpRequest Body) (m : Bool) (b : ℕ) (bs : Bytes) (ar : AdmissionReview)
      (e : Option Error)
      → Posted r b bs
      → wire.decode (b ∷ bs) ≡ (ar, e)
      → ar.request ≡ none
      → serve wire wh r m ≡ panics
  unfolding response_to finish
  serve-panics wh r m b bs ar none posted decoded missing =
      Posted-serve wh r m b bs posted
      ∙ serve_body-decoded wh m (b ∷ bs) (ar, none) decoded
      ∙ ap (λ o. (deref o >>= λ _. admit wh ar m) >>= finish o) missing
  serve-panics wh r m b bs ar (some e) posted decoded missing =
      Posted-serve wh r m b bs posted
      ∙ serve_body-decoded wh m (b ∷ bs) (ar, some e) decoded
      ∙ ap (λ o. finish o (err_to_admission_response e)) missing
