-- ===== src/Admission/Status.antt =====
-- admission.go: getPodStatus.
use Prim.Native.String.{◌++◌}
use karydia.Common.{
  ℕ, suc, String, Bool, true, false, ◌&&◌, not, Option, none, some, List, [], ◌∷◌, ◌==◌, num_eq,
  not_nil, length, if◌then◌else◌,
}
use karydia.Common.Decimal.{ℤ, pos, negsuc, itoa, format_int}
use karydia.Kube.{Pod, Terminated, ContainerStatus}

abbrev pub is_zero : ℤ → Bool
is_zero (pos n) = num_eq n 0
is_zero (negsuc n) = false

-- The text for a terminated container that gives no reason.
unfoldable pub exit_reason : String → Terminated → String
exit_reason prefix t =
    if is_zero t.signal
    then prefix ++ ("ExitCode:" ++ format_int t.exit_code)
    else prefix ++ ("Signal:" ++ format_int t.signal)

-- One init container: `none` is `continue`, and `some` the reason with which the loop breaks.
unfoldable pub init_reason : ℕ → ℕ → ContainerStatus → Option String
init_reason i total container = elim container.terminated [
  | some t ↦
      if is_zero t.exit_code
      then none
      else if t.reason == ""
      then some (exit_reason "Init:" t)
      else some ("Init:" ++ t.reason)
  | none ↦ elim container.waiting [
    | some w ↦
        if not (w.reason == "") && not (w.reason == "PodInitializing")
        then some ("Init:" ++ w.reason)
        else some ("Init:" ++ (itoa i ++ ("/" ++ itoa total)))
    | none ↦ some ("Init:" ++ (itoa i ++ ("/" ++ itoa total)))
  ]
]

-- The loop over the init containers from index `i`: the reason, and whether the pod initializes.
unfoldable pub init_loop : ℕ → ℕ → List ContainerStatus → String → String × Bool
init_loop i total [] reason = (reason, false)
init_loop i total (c ∷ cs) reason =
    let rest = init_loop (suc i) total cs reason in
    elim (init_reason i total c) [ none ↦ rest | some r ↦ (r, true) ]

-- One container that does not wait for a reason: the reason and hasRunning after it.
unfoldable pub settled_step : ContainerStatus → String × Bool → String × Bool
settled_step c (reason, has_running) = elim c.terminated [
  | some t ↦ if t.reason == "" then (exit_reason "" t, has_running) else (t.reason, has_running)
  | none ↦ if c.ready && not_nil c.running then (reason, true) else (reason, has_running)
]

unfoldable pub container_step : ContainerStatus → String × Bool → String × Bool
container_step c (reason, has_running) = elim c.waiting [
  | some w ↦
      if w.reason == "" then settled_step c (reason, has_running) else (w.reason, has_running)
  | none ↦ settled_step c (reason, has_running)
]

-- The loop over the containers, which runs from the last to the first.
unfoldable pub container_loop : List ContainerStatus → String × Bool → String × Bool
container_loop [] acc = acc
container_loop (c ∷ cs) acc = container_step c (container_loop cs acc)

unfoldable pub settle : String × Bool → String
settle (reason, has_running) = if reason == "Completed" && has_running then "Running" else reason

-- The reason before the deletion timestamp is looked at.
unfoldable pub phase_reason : Pod → String
phase_reason pod =
    let after_init =
      init_loop 0 (length pod.spec.init_containers) pod.status.init_container_statuses
        pod.status.phase in
    if after_init.1
    then after_init.0
    else settle (container_loop pod.status.container_statuses (after_init.0, false))

unfoldable pub get_pod_status : Pod → String
get_pod_status pod = if not_nil pod.meta.deletion_timestamp then "Terminating" else phase_reason pod
