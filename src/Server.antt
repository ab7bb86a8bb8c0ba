-- ===== src/Server.antt =====
-- pkg/server/server.go: the routes, and the logger in front of them that records the status.
pub mod Make
pub mod Status
pub mod EndToEnd
use Prim.Native.String.{◌++◌}
use karydia.Common.{
  ℕ, String, Bool, true, false, Option, none, some, List, [], ◌∷◌, ◌++◌ as append, ◌==◌,
  if◌then◌else◌,
}
use karydia.Common.Dict.{Dict, lookup}
use karydia.Common.Run.{Run, returns, panics, ◌>>=◌}
use karydia.Kube.Review.{Bytes}
use karydia.Webhook.{Webhook}
use karydia.Webhook.Serve.{HttpRequest, Reply, http_error, written, Wire, serve}

-- The calls of a handler on its writer.
pub data WriterCall : Type 0 where
  write_header : ℕ → WriterCall
  write_text : String → WriterCall
  write_bytes : Bytes → WriterCall

-- http.Error sets the status and prints the text as a line.
unfoldable pub calls_of : Reply → List WriterCall
calls_of (http_error code text) = write_header code ∷ write_text (text ++ "\n") ∷ []
calls_of (written bytes) = write_bytes bytes ∷ []

-- responseWriter: the writer that it wraps, as the calls that reach it, and the status.
pub record ResponseWriter : Type 0 where
  pub calls : List WriterCall
  pub status : ℕ

unfoldable pub new_response_writer : ResponseWriter
new_response_writer = record { calls = []; status = 200 }

-- A call on the wrapper: only WriteHeader is its own.
unfoldable pub write_call : ResponseWriter → WriterCall → ResponseWriter
write_call w (write_header status) = record {
  calls = append w.calls (write_header status ∷ []);
  status = status;
}
write_call w c = record w { calls = append w.calls (c ∷ []) }

unfoldable pub write_calls : ResponseWriter → List WriterCall → ResponseWriter
write_calls w [] = w
write_calls w (c ∷ cs) = write_calls (write_call w c) cs

module _ {Body : Type 0} where
  unfoldable pub handler_healthz : HttpRequest Body → Run (List WriterCall)
  handler_healthz r = returns (write_text "OK" ∷ [])

module _ {Body : Type 0} (wire : Wire Body) where
  -- One of the two functions that hand a request to the webhook.
  unfoldable pub webhook_handler : Webhook → Bool → HttpRequest Body → Run (List WriterCall)
  webhook_handler wh mutation_allowed r =
      serve wire wh r mutation_allowed >>= λ reply. returns (calls_of reply)

  -- New: the handlers by their patterns.
  unfoldable pub routes : Option Webhook → Dict (HttpRequest Body → Run (List WriterCall))
  routes none = ("/healthz", handler_healthz) ∷ []
  routes (some wh) =
      ("/healthz", handler_healthz)
      ∷ ("/webhook/validating", webhook_handler wh false)
      ∷ ("/webhook/mutating", webhook_handler wh true)
      ∷ []

  -- http.ServeMux for patterns without a final slash: a path that is clean goes to the handler whose
  -- pattern it is, and any other is not found.
  abbrev pub dispatch :
      Dict (HttpRequest Body → Run (List WriterCall))
      → String
      → HttpRequest Body
      → Run (List WriterCall)
  dispatch table path r = elim (lookup path table) [
    | none ↦ returns (calls_of (http_error 404 "404 page not found"))
    | some handler ↦ handler r
  ]

  -- middlewareLogger: what reaches the writer, and the status that is logged.
  unfoldable pub serve_http : Option Webhook → String → HttpRequest Body → Run ResponseWriter
  serve_http wh path r =
      dispatch (routes wh) path r >>= λ calls. returns (write_calls new_response_writer calls)
