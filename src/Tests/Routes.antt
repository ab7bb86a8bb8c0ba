-- ===== src/Tests/Routes.antt =====
-- The server's routes with the admission plugin behind them: body 1 is the review of the cart, and body 2 that
-- of the hardened cart.
use karydia.Common.{ℕ, String, ◌≡◌, refl, false, Option, none, some, [], ◌∷◌, num_eq, if◌then◌else◌}
use karydia.Common.Run.{Error, errorf, Result, ok, err, returns, panics}
use karydia.Kube.{Pod}
use karydia.Kube.Review.{
  Bytes, AdmissionRequest, AdmissionReview, AdmissionResponse, allow_admission_response,
  mutating_admission_response,
}
use karydia.Admission.Types.{Externals}
use karydia.Admission.Status.{
  get_pod_status, phase_reason, init_loop, container_loop, container_step, settled_step, settle,
  exit_reason,
}
use karydia.Common.Decimal.{format_int, itoa}
use karydia.Admission.Harden.{harden}
use karydia.Admission.Harden.Laws.{apply-pod_patches}
use karydia.Admission.Handler.{kind_pod, decode_pod, get_namespace_from_admission_request}
use karydia.Webhook.Serve.{HttpRequest, Wire, read_body}
use karydia.Server.{
  new_response_writer, write_call, write_calls, routes, handler_healthz, write_text, serve_http,
}
use karydia.Server.Make.{Types, Server, new_server}
use karydia.Server.EndToEnd.{
  karydia_webhook, replied, Asks, AsksPod, serve_http-unpatched, mutated_pod-allowed,
}
use karydia.Common.Dict.{lookup}
use karydia.Tests.Data.{shop, config_of, lenient_plugin, cart, default_account}

abbrev plain_types : Types
plain_types = record { logger = String; tls = String }

abbrev hardened : Pod
hardened = harden lenient_plugin shop cart

abbrev request_of : ℕ → AdmissionRequest
request_of n = record {
  uid = "7";
  kind = kind_pod;
  name = "cart";
  namespace = "shop";
  operation = "CREATE";
  object_raw = n ∷ [];
}

abbrev review_of : ℕ → AdmissionReview
review_of n = record { request = some (request_of n); response = none }

abbrev pod_of : Bytes → Result Pod
pod_of [] = err (errorf "empty")
pod_of (n ∷ rest) = ok (if num_eq n 1 then cart else hardened)

abbrev externals : Externals
externals = record {
  deserialize_pod = pod_of;
  deserialize_service_account = λ raw. ok default_account;
  get_namespace = λ name. ok shop;
  marshal = λ operations. some (91 ∷ 93 ∷ []);
}

abbrev decode_body : Bytes → AdmissionReview × Option Error
decode_body [] = (record { request = none; response = none }, some (errorf "empty"))
decode_body (n ∷ rest) = (review_of n, none)

abbrev wire : Wire Bytes
wire = record {
  read_limited = λ limit body. ok body;
  status_text = λ code. "status";
  decode = decode_body;
  marshal = λ review. ok (123 ∷ 125 ∷ []);
}

abbrev posted_bytes : ℕ → HttpRequest Bytes
posted_bytes n = record { method = "POST"; content_type = "application/json"; body = some (n ∷ []) }

asks : (n : ℕ) → Asks wire (posted_bytes n) (review_of n) (request_of n)
unfolding read_body
asks n = record {
  first = n;
  rest = [];
  posted = record { post = refl; json = refl; readable = refl };
  decoded = refl;
  asked = refl;
}

first_asks :
    AsksPod wire externals lenient_plugin (posted_bytes 1) (review_of 1) (request_of 1) cart shop
unfolding decode_pod get_namespace_from_admission_request
first_asks = record { asks = asks 1; pod_kind = refl; object = refl; place = refl }

second_asks :
    AsksPod wire externals lenient_plugin
      (posted_bytes 2)
      (review_of 2)
      (request_of 2)
      hardened
      shop
unfolding decode_pod get_namespace_from_admission_request
second_asks = record { asks = asks 2; pod_kind = refl; object = refl; place = refl }

cart_status : get_pod_status cart ≡ "ExitCode:2"
unfolding get_pod_status phase_reason init_loop container_loop container_step settled_step settle
    exit_reason format_int itoa
cart_status = refl

serve_http-unpatched_example :
    (a : AdmissionResponse) × (serve_http wire
        (some (karydia_webhook externals lenient_plugin))
        "/webhook/validating"
        (posted_bytes 1)
      ≡ returns (replied wire (request_of 1) a))
    × (a.patch ≡ none)
serve_http-unpatched_example =
    serve_http-unpatched wire externals lenient_plugin (config_of false) (posted_bytes 1)
      (review_of 1) (request_of 1) refl (asks 1)

mutated_pod-allowed_example :
    (serve_http wire
        (some (karydia_webhook externals lenient_plugin))
        "/webhook/mutating"
        (posted_bytes 1)
      ≡ returns (replied wire (request_of 1) (mutating_admission_response (some (91 ∷ 93 ∷ [])))))
    × (serve_http wire
          (some (karydia_webhook externals lenient_plugin))
          "/webhook/validating"
          (posted_bytes 2)
        ≡ returns (replied wire (request_of 2) allow_admission_response))
mutated_pod-allowed_example =
    mutated_pod-allowed wire externals lenient_plugin (posted_bytes 1) (posted_bytes 2)
      (review_of 1) (review_of 2) (request_of 1) (request_of 2) cart hardened shop (91 ∷ 93 ∷ [])
      first_asks second_asks refl (rw cart_status refl) refl
      (apply-pod_patches lenient_plugin cart shop)

healthz_run :
    serve_http wire none "/healthz" (posted_bytes 1)
    ≡ returns (record { calls = write_text "OK" ∷ []; status = 200 })
unfolding serve_http routes handler_healthz write_calls write_call new_response_writer lookup
healthz_run = refl

-- A server at port 33333 without a webhook still answers the health check.
healthy_server :
    (s : Server plain_types Bytes) × (new_server wire "server"
        (some (record { addr = ":33333"; logger = none; tls_config = none }))
        none
      ≡ returns (ok s))
    × (s.logger ≡ "server")
    × (s.http_server.handler "/healthz" (posted_bytes 1)
        ≡ returns (record { calls = write_text "OK" ∷ []; status = 200 }))
unfolding new_server
healthy_server = (_, refl, refl, healthz_run)

nil_configuration : new_server {T = plain_types} wire "server" none none ≡ panics
unfolding new_server
nil_configuration = refl
