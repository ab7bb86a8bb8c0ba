-- ===== src/Admission/Harden.antt =====
-- The pod that the plugin means to produce, written directly and with no patch. The modules
-- below prove that the patches of mutatePod turn the pod into it.
pub mod Gives
pub mod Context
pub mod Containers
pub mod Laws
pub mod Effect
pub mod Again
use mathlib.Core.List.{append_assoc}
use mathlib.Core.Option
use karydia.Common.{
  ℕ, suc, ◌+◌, String, Bool, true, false, not, ◌&&◌, ◌≡◌, refl, sym, ◌∙◌, ap, Option, none, some,
  List, [], ◌∷◌, ◌++◌, map, arith, ◌==◌, is_nil, length, if◌then◌else◌, Bool-cases, Option-cases,
  inl, inr,
}
use karydia.Common.Decimal.{pos}
use karydia.Common.Dict.{Dict, lookup, insert, is_empty, is_empty-insert}
use karydia.Common.Pointer.{tokens, unescape}
use karydia.Common.Text.{Lacks, concat, split, replace}
use karydia.Kube.{Namespace, Pod, Container, PodSecurityContext, SecurityContext}
use karydia.Admission.Types.{
  KarydiaAdmission, Setting, PatchValue, text, number, flag, text_map, security_context,
  PatchOperation, Patches, no_patches,
}
use karydia.Admission.Patch.{
  with_annotations, with_context, with_containers, locate, add_at, update_at, apply_operation,
  apply, apply-concat, update_at-append,
}
use karydia.Admission.Paths.{
  locate-annotation, locate-container_context, locate-container_escalation,
}
use karydia.Admission.Pod.{
  get_seccomp_profile_setting, get_security_context_setting, add_operation, annotate_pod,
  seccomp_key, seccomp_internal_key, context_internal_key, source_of, mutate_pod_seccomp_profile,
  nobody_id, mutate_container, mutate_containers, set_context, mutate_pod_security_context,
  pod_patches,
}

abbrev pub annotate : String → String → Pod → Pod
annotate key value pod = with_annotations (insert key value pod.meta.annotations) pod

unfoldable pub harden_seccomp : Setting → Pod → Pod
harden_seccomp setting pod =
    if is_nil (lookup seccomp_key pod.meta.annotations)
    then annotate seccomp_internal_key (source_of setting) (annotate seccomp_key setting.value pod)
    else pod

abbrev pub nobody : PodSecurityContext
nobody = record { run_as_user = some (pos nobody_id); run_as_group = some (pos nobody_id) }

-- User and group are set together, if the pod sets neither.
unfoldable pub harden_context : Setting → Pod → Option PodSecurityContext → Pod
harden_context setting pod none =
    annotate context_internal_key (source_of setting) (with_context (some nobody) pod)
harden_context setting pod (some sc) =
    if is_nil sc.run_as_user && is_nil sc.run_as_group
    then annotate context_internal_key (source_of setting) (with_context (some nobody) pod)
    else pod

abbrev pub no_escalation : SecurityContext
no_escalation = record {
  run_as_user = none;
  run_as_group = none;
  allow_privilege_escalation = some false;
}

-- Privilege escalation is denied where the container does not say.
unfoldable pub harden_container_context : Option SecurityContext → SecurityContext
harden_container_context none = no_escalation
harden_container_context (some sc) =
    if is_nil sc.allow_privilege_escalation
    then record sc { allow_privilege_escalation = some false }
    else sc

abbrev pub harden_container : Container → Container
harden_container c = record c {
  security_context = some (harden_container_context c.security_context);
}

unfoldable pub harden_security : Setting → Pod → Pod
harden_security setting pod =
    if setting.value == "nobody"
    then with_containers (map harden_container pod.spec.containers)
        (harden_context setting pod pod.spec.security_context)
    else pod

unfoldable pub harden : KarydiaAdmission → Namespace → Pod → Pod
harden k ns pod =
    let seccomp = get_seccomp_profile_setting k ns in
    let context = get_security_context_setting k ns in
    let q = if seccomp.value == "" then pod else harden_seccomp seccomp pod in
    if context.value == "" then q else harden_security context q
