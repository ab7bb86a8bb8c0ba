-- ===== src/Admission/Pod.antt =====
-- admission_pod.go: the settings for pods, and their mutation and validation.
use karydia.Common.{
  ℕ, suc, String, true, false, not, ◌&&◌, Option, none, some, List, [], ◌∷◌, ◌++◌, ◌==◌, is_nil,
  if◌then◌else◌,
}
use karydia.Common.Decimal.{pos, itoa}
use karydia.Common.Dict.{lookup, is_empty}
use karydia.Common.Text.{concat, replace}
use karydia.Kube.{Namespace, Pod, PodSecurityContext, SecurityContext, Container}
use karydia.Kube.Review.{
  AdmissionResponse, mutating_admission_response, validating_admission_response,
}
use karydia.Admission.Types.{
  KarydiaAdmission, Setting, PatchValue, Patches, text, number, flag, text_map, security_context,
  no_patches, Externals, to_bytes, pick_setting,
}

unfoldable pub get_seccomp_profile_setting : KarydiaAdmission → Namespace → Setting
get_seccomp_profile_setting k ns =
    pick_setting (lookup "karydia.gardener.cloud/seccompProfile" ns.meta.annotations) ns.meta.name
      k.karydia_config (λ spec. spec.seccomp_profile)

unfoldable pub get_security_context_setting : KarydiaAdmission → Namespace → Setting
get_security_context_setting k ns =
    pick_setting (lookup "karydia.gardener.cloud/podSecurityContext" ns.meta.annotations)
      ns.meta.name k.karydia_config (λ spec. spec.pod_security_context)

-- patches.operations = append(patches.operations, patchOperation{Op: "add", …})
abbrev pub add_operation : String → PatchValue → Patches → Patches
add_operation path value p = record p {
  operations = p.operations ++ record { op = "add"; path = path; value = value } ∷ [];
}

unfoldable pub annotate_pod : Pod → Patches → String → String → Patches
annotate_pod pod p key value =
    if is_empty pod.meta.annotations && not p.annotated
    then record (add_operation "/metadata/annotations" (text_map ((key, value) ∷ [])) p) {
      annotated = true;
    }
    else add_operation (concat ("/metadata/annotations/" ∷ replace b'/' "~1" key ∷ [])) (text value)
        p

abbrev pub seccomp_key : String
seccomp_key = "seccomp.security.alpha.kubernetes.io/pod"

abbrev pub seccomp_internal_key : String
seccomp_internal_key = "karydia.gardener.cloud/seccompProfile.internal"

abbrev pub context_internal_key : String
context_internal_key = "karydia.gardener.cloud/podSecurityContext.internal"

-- The value of an internal annotation.
abbrev pub source_of : Setting → String
source_of setting = concat (setting.src ∷ "/" ∷ setting.value ∷ [])

unfoldable pub mutate_pod_seccomp_profile : Pod → Setting → Patches → Patches
mutate_pod_seccomp_profile pod setting p =
    if is_nil (lookup seccomp_key pod.meta.annotations)
    then annotate_pod pod (annotate_pod pod p seccomp_key setting.value) seccomp_internal_key
        (source_of setting)
    else p

abbrev pub nobody_id : ℕ
nobody_id = 65534

-- One round of the loop over the containers, at index `i` and the container's security context.
unfoldable pub mutate_container : ℕ → Option SecurityContext → Patches → Patches
mutate_container i none p =
    add_operation (concat ("/spec/containers/" ∷ itoa i ∷ "/securityContext" ∷ []))
      (security_context (record {
        run_as_user = none;
        run_as_group = none;
        allow_privilege_escalation = some false;
      }))
      p
mutate_container i (some sc) p =
    if is_nil sc.allow_privilege_escalation
    then add_operation
        (concat ("/spec/containers/" ∷ itoa i ∷ "/securityContext/allowPrivilegeEscalation" ∷ []))
        (flag false) p
    else p

unfoldable pub mutate_containers : ℕ → List Container → Patches → Patches
mutate_containers i [] p = p
mutate_containers i (c ∷ cs) p =
    mutate_containers (suc i) cs (mutate_container i c.security_context p)

-- mutatePodSecurityContext before its loop, at the pod's security context.
unfoldable pub set_context : Pod → Setting → Patches → Option PodSecurityContext → Patches
set_context pod setting p none =
    annotate_pod pod
      (add_operation "/spec/securityContext"
        (security_context (record {
          run_as_user = some (pos nobody_id);
          run_as_group = some (pos nobody_id);
          allow_privilege_escalation = none;
        }))
        p)
      context_internal_key (source_of setting)
set_context pod setting p (some sc) =
    if is_nil sc.run_as_user && is_nil sc.run_as_group
    then annotate_pod pod
        (add_operation "/spec/securityContext/runAsGroup" (number (pos nobody_id))
          (add_operation "/spec/securityContext/runAsUser" (number (pos nobody_id)) p))
        context_internal_key (source_of setting)
    else p

unfoldable pub mutate_pod_security_context : Pod → Setting → Patches → Patches
mutate_pod_security_context pod setting p =
    if setting.value == "nobody"
    then mutate_containers 0 pod.spec.containers
        (set_context pod setting p pod.spec.security_context)
    else p

-- The patches of mutatePod, before they are marshalled.
unfoldable pub pod_patches : KarydiaAdmission → Pod → Namespace → Patches
pod_patches k pod ns =
    let seccomp = get_seccomp_profile_setting k ns in
    let context = get_security_context_setting k ns in
    let p =
      if seccomp.value == ""
      then no_patches
      else mutate_pod_seccomp_profile pod seccomp no_patches in
    if context.value == "" then p else mutate_pod_security_context pod context p

unfoldable pub mutate_pod : Externals → KarydiaAdmission → Pod → Namespace → AdmissionResponse
mutate_pod ext k pod ns = mutating_admission_response (to_bytes ext (pod_patches k pod ns))

unfoldable pub validate_pod_seccomp_profile : Pod → Setting → List String → List String
validate_pod_seccomp_profile pod setting errors =
    if is_nil (lookup seccomp_key pod.meta.annotations)
    then errors
      ++ concat (
          "seccomp profile ('seccomp.security.alpha.kubernetes.io/pod') must be '" ∷ setting.value
          ∷ "'" ∷ [])
        ∷ []
    else errors

-- validatePodSecurityContext under the setting "nobody", at the pod's security context.
unfoldable pub context_errors : Option PodSecurityContext → List String → List String
context_errors none errors = errors ++ "security context must be defined" ∷ []
context_errors (some sc) errors =
    if is_nil sc.run_as_user && is_nil sc.run_as_group
    then errors ++ "User or group in security context must be defined" ∷ []
    else errors

unfoldable pub validate_pod_security_context : Pod → Setting → List String → List String
validate_pod_security_context pod setting errors =
    if setting.value == "nobody" then context_errors pod.spec.security_context errors else errors

-- The errors of validatePod.
unfoldable pub pod_errors : KarydiaAdmission → Pod → Namespace → List String
pod_errors k pod ns =
    let seccomp = get_seccomp_profile_setting k ns in
    let context = get_security_context_setting k ns in
    let errors = if seccomp.value == "" then [] else validate_pod_seccomp_profile pod seccomp [] in
    if context.value == "" then errors else validate_pod_security_context pod context errors

unfoldable pub validate_pod : KarydiaAdmission → Pod → Namespace → AdmissionResponse
validate_pod k pod ns = validating_admission_response (pod_errors k pod ns)
