-- ===== src/Server/Status.antt =====
-- The status in the log.
use karydia.Common.{
  ℕ, String, ◌≡◌, refl, Bool, true, false, Option, none, some, List, [], ◌∷◌, ◌==◌, All, inl, inr,
  Bool-cases,
}
use karydia.Common.Dict.{Dict, lookup}
use karydia.Common.Run.{Run, returns, panics, ◌>>=◌, Holds, Holds-bind, Holds-returns}
use karydia.Webhook.{Webhook}
use karydia.Webhook.Serve.{HttpRequest, Reply, http_error, written, Wire, serve}
use karydia.Server.{
  WriterCall, write_header, calls_of, ResponseWriter, new_response_writer, write_call, write_calls,
  handler_healthz, webhook_handler, routes, dispatch, serve_http,
}

-- The status that net/http sends: of the first WriteHeader, or 200 if a write comes first or nothing.
abbrev pub sent_status : List WriterCall → ℕ
sent_status (write_header status ∷ _) = status
sent_status _ = 200

-- What a writer holds after the calls of a handler that sets the status first or not at all.
abbrev IsHonest : ResponseWriter → Type 0
IsHonest w = w.status ≡ sent_status w.calls

reply-IsHonest : (reply : Reply) → IsHonest (write_calls new_response_writer (calls_of reply))
unfolding write_calls write_call new_response_writer calls_of
reply-IsHonest (http_error code text) = refl
reply-IsHonest (written bytes) = refl

module _ {Body : Type 0} (wire : Wire Body) where
  -- A handler's calls end in an honest writer.
  abbrev Ends : Run (List WriterCall) → Type 0
  Ends m = Holds (λ calls. IsHonest (write_calls new_response_writer calls)) m

  webhook_handler-Ends :
      (wh : Webhook) (m : Bool) (r : HttpRequest Body) → Ends (webhook_handler wire wh m r)
  unfolding webhook_handler
  webhook_handler-Ends wh m r = Holds-bind _ (serve wire wh r m) _ (λ reply. reply-IsHonest reply)

  healthz-Ends : (r : HttpRequest Body) → Ends (handler_healthz r)
  unfolding handler_healthz write_calls write_call new_response_writer
  healthz-Ends r = refl

  table-Ends :
      (table : Dict (HttpRequest Body → Run (List WriterCall)))
      → All (λ entry. (r : HttpRequest Body) → Ends (entry.1 r)) table
      → (path : String) (r : HttpRequest Body) → Ends (dispatch wire table path r)
  unfolding lookup
  table-Ends [] all path r = reply-IsHonest (http_error 404 "404 page not found")
  table-Ends ((pattern, handler) ∷ table) (own, all) path r = elim (Bool-cases (pattern == path)) [
    | inl here ↦ rw (here, lookup, dispatch) (own r)
    | inr behind ↦ rw (behind, lookup, dispatch) (table-Ends table all path r)
  ]

  routes-Ends :
      (wh : Option Webhook)
      → All (λ entry. (r : HttpRequest Body) → Ends (entry.1 r)) (routes wire wh)
  unfolding routes
  routes-Ends none = (healthz-Ends, tt)
  routes-Ends (some wh) =
      (healthz-Ends, (webhook_handler-Ends wh false, (webhook_handler-Ends wh true, tt)))

  -- Whatever the path, the request and the webhook, if the server answers, then the status that it logs is
  -- the status that is sent.
  pub serve_http-sent_status :
      (wh : Option Webhook) (path : String) (r : HttpRequest Body) (w : ResponseWriter)
      → serve_http wire wh path r ≡ returns w
      → w.status ≡ sent_status w.calls
  unfolding serve_http
  serve_http-sent_status wh path r w e =
      Holds-returns IsHonest _ w
        (bind_calls (dispatch wire (routes wire wh) path r)
          (table-Ends (routes wire wh) (routes-Ends wh) path r))
        e
    where
      bind_calls :
          (m : Run (List WriterCall))
          → Ends m
          → Holds IsHonest (m >>= λ calls. returns (write_calls new_response_writer calls))
      bind_calls (returns calls) h = h
      bind_calls panics h = tt
