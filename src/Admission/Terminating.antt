-- ===== src/Admission/Terminating.antt =====
-- Which pods getPodStatus calls terminating.
use Prim.Native.Char.{Char, code}
use Prim.Native.String.{◌++◌, ◌∷◌}
use text.Mathlib.TextLemmas.{cons-append, nil-append, head-eq_of_cons-eq}
use karydia.Common.{
  ℕ, suc, String, ◌≡◌, ◌≢◌, sym, ap, ◌∙◌, ◌↔◌, inl, inr, Bool, true, false, some, List, arith,
  eq_iff, not_nil, length, All, Bool-cases, Option-cases,
}
use karydia.Kube.{Pod, Waiting, Terminated, ContainerStatus}
use karydia.Admission.Status.{
  is_zero, exit_reason, init_reason, init_loop, settled_step, container_step, container_loop,
  settle, phase_reason, get_pod_status,
}

ne_of_head : (c d : Char) (s t : String) → code c ≢ code d → ◌≢◌ {A = String} (c ∷ s) (d ∷ t)
ne_of_head c d s t h e = h (ap code (head-eq_of_cons-eq e))

init-ne : (s : String) → "Init:" ++ s ≢ "Terminating"
init-ne s e =
    ne_of_head "I" "T" ("nit:" ++ s) "erminating" (omega arith) (sym (cons-append "I" "nit:" s) ∙ e)

exit_code-ne : (s : String) → "ExitCode:" ++ s ≢ "Terminating"
exit_code-ne s e =
    ne_of_head "E" "T" ("xitCode:" ++ s) "erminating" (omega arith)
      (sym (cons-append "E" "xitCode:" s) ∙ e)

signal-ne : (s : String) → "Signal:" ++ s ≢ "Terminating"
signal-ne s e =
    ne_of_head "S" "T" ("ignal:" ++ s) "erminating" (omega arith)
      (sym (cons-append "S" "ignal:" s) ∙ e)

exit_reason-ne : (t : Terminated) → exit_reason "" t ≢ "Terminating"
unfolding exit_reason
exit_reason-ne t = elim (Bool-cases (is_zero t.signal)) [
  | inl none_sent ↦ rw (none_sent, nil-append) (exit_code-ne _)
  | inr sent ↦ rw (sent, nil-append) (signal-ne _)
]

-- No reason that the container gives is the text "Terminating".
abbrev pub IsOrdinary : ContainerStatus → Type 0
IsOrdinary c =
    ((w : Waiting) → c.waiting ≡ some w → w.reason ≢ "Terminating")
    × ((t : Terminated) → c.terminated ≡ some t → t.reason ≢ "Terminating")

settled_step-ne :
    (c : ContainerStatus) (reason : String) (running : Bool)
    → IsOrdinary c
    → reason ≢ "Terminating"
    → (settled_step c (reason, running)).0 ≢ "Terminating"
unfolding settled_step
settled_step-ne c reason running (w, t) h = elim (Option-cases c.terminated) [
  | inl missing ↦ rw missing (ground arith)
  | inr (t', there) ↦ rw there (ground (arith, exit_reason-ne t', t t' there))
]

container_step-ne :
    (c : ContainerStatus) (reason : String) (running : Bool)
    → IsOrdinary c
    → reason ≢ "Terminating"
    → (container_step c (reason, running)).0 ≢ "Terminating"
unfolding container_step settled_step
container_step-ne c reason running (w, t) h = elim (Option-cases c.waiting) [
  | inl missing ↦ rw missing (settled_step-ne c reason running (w, t) h)
  | inr (w', there) ↦
      rw there (ground (arith, w w' there, settled_step-ne c reason running (w, t) h))
]

container_loop-ne :
    (cs : List ContainerStatus) (acc : String × Bool)
    → All IsOrdinary cs
    → acc.0 ≢ "Terminating"
    → (container_loop cs acc).0 ≢ "Terminating"
unfolding container_loop
container_loop-ne List.[] acc h k = k
container_loop-ne (List.◌∷◌ c cs) acc (hc, hs) k =
    container_step-ne c (container_loop cs acc).0 (container_loop cs acc).1 hc
      (container_loop-ne cs acc hs k)

exit_init-ne : (t : Terminated) → exit_reason "Init:" t ≢ "Terminating"
unfolding exit_reason
exit_init-ne t = elim (Bool-cases (is_zero t.signal)) [
  | inl none_sent ↦ rw none_sent (init-ne _)
  | inr sent ↦ rw sent (init-ne _)
]

init_reason-ne :
    (i total : ℕ) (c : ContainerStatus) (r : String)
    → init_reason i total c ≡ some r
    → r ≢ "Terminating"
unfolding init_reason
init_reason-ne i total c r e k = grind (arith, init-ne, exit_init-ne)

init_loop-ne :
    (i total : ℕ) (cs : List ContainerStatus) (reason : String)
    → reason ≢ "Terminating"
    → (init_loop i total cs reason).0 ≢ "Terminating"
unfolding init_loop
init_loop-ne i total List.[] reason h = h
init_loop-ne i total (List.◌∷◌ c cs) reason h = elim (Option-cases (init_reason i total c)) [
  | inl continued ↦ rw (continued, init_loop) (init_loop-ne (suc i) total cs reason h)
  | inr (r, stopped) ↦ rw (stopped, init_loop) (init_reason-ne i total c r stopped)
]

settle-ne : (acc : String × Bool) → acc.0 ≢ "Terminating" → settle acc ≢ "Terminating"
unfolding settle
settle-ne acc h = ground (arith, eq_iff "Running" "Terminating")

phase_reason-ne :
    (pod : Pod)
    → pod.status.phase ≢ "Terminating"
    → All IsOrdinary pod.status.container_statuses
    → phase_reason pod ≢ "Terminating"
unfolding phase_reason
phase_reason-ne pod h ordinary =
    let init =
      init_loop 0 (length pod.spec.init_containers) pod.status.init_container_statuses
        pod.status.phase in
    let kept : init.0 ≢ "Terminating" =
      init_loop-ne 0 (length pod.spec.init_containers) pod.status.init_container_statuses
        pod.status.phase h in
    ground (
      arith,
      kept,
      settle-ne (container_loop pod.status.container_statuses (init.0, false))
          (container_loop-ne pod.status.container_statuses (init.0, false) ordinary kept),
    )

-- For a pod whose phase and whose containers' own reasons are not the text "Terminating", getPodStatus
-- answers "Terminating" exactly when the deletion timestamp is set.
pub get_pod_status-Terminating :
    (pod : Pod)
    → pod.status.phase ≢ "Terminating"
    → All IsOrdinary pod.status.container_statuses
    → (get_pod_status pod ≡ "Terminating") ↔ (not_nil pod.meta.deletion_timestamp ≡ true)
unfolding get_pod_status
get_pod_status-Terminating pod h ordinary = ground (arith, phase_reason-ne pod h ordinary)
