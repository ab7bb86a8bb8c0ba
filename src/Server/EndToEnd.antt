-- ===== src/Server/EndToEnd.antt =====
-- The server with karydia's admission plugin behind its two webhook routes: from the request to the reply.
use karydia.Common.{
  ℕ, String, ◌≡◌, refl, ap, ◌∙◌, Bool, true, false, none, some, ◌∷◌, arith, ◌==◌, eq_iff,
  if◌then◌else◌, not_nil, inl, inr,
}
use karydia.Common.Dict.{lookup}
use karydia.Common.Run.{ok, returns, Run-cases}
use karydia.Kube.{Namespace, Pod}
use karydia.Kube.Custom.{KarydiaConfig}
use karydia.Kube.Review.{
  Bytes, AdmissionRequest, AdmissionReview, AdmissionResponse, allow_admission_response,
  mutating_admission_response,
}
use karydia.Admission.Types.{KarydiaAdmission, Externals, to_bytes}
use karydia.Admission.Patch.{apply}
use karydia.Admission.Pod.{pod_patches, mutate_pod}
use karydia.Admission.Status.{get_pod_status}
use karydia.Admission.Handler.{
  kind_pod, same_kind, should_ignore_event, decode_pod, get_namespace_from_admission_request,
  admit_pod, admit_kind,
}
use karydia.Admission.Handler.{admit as plugin_admit}
use karydia.Admission.Responses.{admit-IsProper}
use karydia.Admission.Total.{admit-ne-panics, admit-apply}
use karydia.Webhook.{
  AdmissionPlugin, Webhook, new, register_admission_plugin, look_at, admit_from, admit,
}
use karydia.Webhook.Serve.{HttpRequest, Wire, serve, send}
use karydia.Webhook.Answers.{Posted, serve-admit}
use karydia.Server.{
  calls_of, ResponseWriter, new_response_writer, write_calls, webhook_handler, routes, serve_http,
}

-- What one plugin's response becomes.
single_admit :
    (p : AdmissionPlugin) (ar : AdmissionReview) (m : Bool) (r : AdmissionResponse)
    → p ar m ≡ returns r
    → admit (register_admission_plugin p new) ar m
      ≡ returns (if r.allowed then (if not_nil r.patch then r else allow_admission_response) else r)
unfolding admit admit_from look_at register_admission_plugin new
single_admit p ar m r e = rw e (ground arith)

-- The webhook with the plugin registered, as the program sets it up.
abbrev pub karydia_webhook : Externals → KarydiaAdmission → Webhook
karydia_webhook ext k = register_admission_plugin (plugin_admit ext k) new

-- The two paths.
abbrev pub path_of : Bool → String
path_of m = if m then "/webhook/mutating" else "/webhook/validating"

module _ {Body : Type 0} (wire : Wire Body) where
  -- The writer after a reply.
  abbrev pub replied : AdmissionRequest → AdmissionResponse → ResponseWriter
  replied req a = write_calls new_response_writer (calls_of (send wire req a))

  route-serve :
      (wh : Webhook) (r : HttpRequest Body) (m : Bool) (req : AdmissionRequest)
      (a : AdmissionResponse)
      → serve wire wh r m ≡ returns (send wire req a)
      → serve_http wire (some wh) (path_of m) r ≡ returns (replied req a)
  unfolding serve_http routes webhook_handler lookup
  route-serve wh r true req a e = rw e refl
  route-serve wh r false req a e = rw e refl

  -- A posted review with a request.
  pub record Asks (r : HttpRequest Body) (ar : AdmissionReview) (req : AdmissionRequest)
      : Type 0 where
    pub first : ℕ
    pub rest : Bytes
    pub posted : Posted wire r first rest
    pub decoded : wire.decode (first ∷ rest) ≡ (ar, none)
    pub asked : ar.request ≡ some req

module _ {Body : Type 0} (wire : Wire Body) (ext : Externals) (k : KarydiaAdmission) where
  answered :
      (r : HttpRequest Body) (ar : AdmissionReview) (req : AdmissionRequest) (m : Bool)
      (a : AdmissionResponse)
      → Asks wire r ar req
      → plugin_admit ext k ar m ≡ returns a
      → serve_http wire (some (karydia_webhook ext k)) (path_of m) r
        ≡ returns (
            replied wire req
              (if a.allowed then (if not_nil a.patch then a else allow_admission_response) else a))
  answered r ar req m a asks ran = route-serve wire (karydia_webhook ext k) r m req _ (
      serve-admit wire (karydia_webhook ext k) r m asks.first asks.rest ar req _ asks.posted
        asks.decoded asks.asked (single_admit (plugin_admit ext k) ar m a ran))

  -- With a configuration, the validating route answers every posted review that holds a request, and its
  -- response never carries a patch.
  pub serve_http-unpatched :
      (config : KarydiaConfig) (r : HttpRequest Body) (ar : AdmissionReview)
      (req : AdmissionRequest)
      → k.karydia_config ≡ some config
      → Asks wire r ar req
      → (a : AdmissionResponse) × (serve_http wire
            (some (karydia_webhook ext k))
            "/webhook/validating"
            r
          ≡ returns (replied wire req a))
        × (a.patch ≡ none)
  unfolding allow_admission_response
  serve_http-unpatched config r ar req configured asks =
      elim (Run-cases (plugin_admit ext k ar false)) [
        | inr stuck ↦ absurd (admit-ne-panics ext k config ar req false configured asks.asked stuck)
        | inl (a, ran) ↦
            let proper = admit-IsProper ext k ar false a ran in
            (_, answered r ar req false a asks ran, ground (arith, proper.unpatched refl))
      ]

  -- A review of a new or changed pod in a namespace that the API server has.
  pub record AsksPod (r : HttpRequest Body) (ar : AdmissionReview) (req : AdmissionRequest)
      (pod : Pod) (ns : Namespace) : Type 0 where
    pub asks : Asks wire r ar req
    pub pod_kind : req.kind ≡ kind_pod
    pub object : decode_pod ext req.object_raw ≡ ok pod
    pub place : get_namespace_from_admission_request ext req ≡ ok ns

  pod-mutated :
      (ar : AdmissionReview) (req : AdmissionRequest) (pod : Pod) (ns : Namespace)
      → ar.request ≡ some req
      → req.kind ≡ kind_pod
      → decode_pod ext req.object_raw ≡ ok pod
      → get_namespace_from_admission_request ext req ≡ ok ns
      → req.operation ≡ "CREATE"
      → (get_pod_status pod == "Terminating") ≡ false
      → plugin_admit ext k ar true ≡ returns (mutate_pod ext k pod ns)
  unfolding plugin_admit should_ignore_event admit_kind admit_pod
  pod-mutated ar req pod ns asked kind object place created alive =
      let same : same_kind req.kind kind_pod ≡ true = rw kind refl in
      let create : (req.operation == "CREATE") ≡ true = (eq_iff req.operation "CREATE").1 created in
      ground arith

  -- A pod that is created is answered on the mutating route with the bytes of its patch. When the pod to
  -- which the patch was applied comes back on the validating route, in the same namespace and under the
  -- same configuration, it is allowed.
  pub mutated_pod-allowed :
      (r r' : HttpRequest Body) (ar ar' : AdmissionReview) (req req' : AdmissionRequest)
      (pod pod' : Pod) (ns : Namespace) (patch : Bytes)
      → AsksPod r ar req pod ns
      → AsksPod r' ar' req' pod' ns
      → req.operation ≡ "CREATE"
      → (get_pod_status pod == "Terminating") ≡ false
      → ext.marshal (pod_patches k pod ns).operations ≡ some patch
      → apply (pod_patches k pod ns).operations pod ≡ some pod'
      → (serve_http wire (some (karydia_webhook ext k)) "/webhook/mutating" r
          ≡ returns (replied wire req (mutating_admission_response (some patch))))
        × (serve_http wire (some (karydia_webhook ext k)) "/webhook/validating" r'
            ≡ returns (replied wire req' allow_admission_response))
  unfolding mutating_admission_response allow_admission_response mutate_pod to_bytes
  mutated_pod-allowed r r' ar ar' req req' pod pod' ns patch first second created alive bytes
        patched =
      let mutated =
        pod-mutated ar req pod ns first.asks.asked first.pod_kind first.object first.place created
          alive in
      let allowed =
        admit-apply ext k pod pod' ns ar' req' patched second.asks.asked second.pod_kind
          second.object second.place in
      (
        answered r ar req true (mutating_admission_response (some patch)) first.asks
            (mutated ∙ ap (λ o. returns (mutating_admission_response o)) bytes),
        answered r' ar' req' false _ second.asks allowed,
      )
