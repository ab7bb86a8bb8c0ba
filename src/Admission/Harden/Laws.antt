-- ===== src/Admission/Harden/Laws.antt =====
-- mutatePod and validatePod against the hardened pod.
use mathlib.Core.Path.{subst}
use karydia.Common.{
  ◌&&◌, ◌≡◌, refl, Option, none, some, [], map, arith, ◌==◌, is_nil, if◌then◌else◌, Bool-cases, inl,
  inr,
}
use karydia.Common.Dict.{lookup}
use karydia.Kube.{Namespace, Pod, PodSecurityContext}
use karydia.Admission.Types.{KarydiaAdmission, Setting, Patches, no_patches}
use karydia.Admission.Patch.{with_containers, apply}
use karydia.Admission.Harden.{
  harden_seccomp, harden_context, harden_container, harden_security, harden,
}
use karydia.Admission.Harden.Gives.{Gives, Gives-mutate_pod_seccomp_profile}
use karydia.Admission.Harden.Context.{Gives-set_context}
use karydia.Admission.Harden.Containers.{Gives-mutate_containers}
use karydia.Admission.Pod.{
  get_seccomp_profile_setting, get_security_context_setting, seccomp_key,
  mutate_pod_seccomp_profile, mutate_containers, set_context, mutate_pod_security_context,
  pod_patches,
}

with_containers-harden_context :
    (setting : Setting) (q : Pod) (context : Option PodSecurityContext)
    → with_containers q.spec.containers (harden_context setting q context)
      ≡ harden_context setting q context
unfolding harden_context
with_containers-harden_context setting q none = refl
with_containers-harden_context setting q (some sc) =
    elim (Bool-cases (is_nil sc.run_as_user && is_nil sc.run_as_group)) [
      | inl unset ↦ rw unset
      | inr set ↦ rw set
    ]

Gives-mutate_pod_security_context :
    {pod q : Pod} {p : Patches} (setting : Setting)
    → Gives pod p q
    → q.spec ≡ pod.spec
    → Gives pod (mutate_pod_security_context pod setting p) (harden_security setting q)
unfolding mutate_pod_security_context harden_security
Gives-mutate_pod_security_context {pod} {q} {p} setting g same =
    elim (Bool-cases (setting.value == "nobody")) [
      | inl nobody_set ↦ rw nobody_set (
          subst
            (λ spec.
              Gives pod
                (mutate_containers 0 spec.containers
                  (set_context pod setting p spec.security_context))
                (with_containers (map harden_container q.spec.containers)
                  (harden_context setting q q.spec.security_context)))
            same
            (Gives-mutate_containers (harden_context setting q q.spec.security_context) []
              q.spec.containers 0 refl
              (rw (with_containers-harden_context setting q q.spec.security_context)
                (Gives-set_context setting q.spec.security_context g refl))))
      | inr other ↦ rw other g
    ]

spec-harden_seccomp : (setting : Setting) (pod : Pod) → (harden_seccomp setting pod).spec ≡ pod.spec
unfolding harden_seccomp
spec-harden_seccomp setting pod =
    elim (Bool-cases (is_nil (lookup seccomp_key pod.meta.annotations))) [
      | inl missing ↦ rw missing
      | inr there ↦ rw there
    ]

Gives-seccomp :
    (pod : Pod) (setting : Setting)
    → Gives pod
        (if setting.value == ""
          then no_patches
          else mutate_pod_seccomp_profile pod setting no_patches)
        (if setting.value == "" then pod else harden_seccomp setting pod)
      × ((if setting.value == "" then pod else harden_seccomp setting pod).spec ≡ pod.spec)
unfolding apply
Gives-seccomp pod setting =
    let start : Gives pod no_patches pod = record { applied = refl; absent = ground arith } in
    elim (Bool-cases (setting.value == "")) [
      | inl off ↦ rw off (start, refl)
      | inr on ↦
          rw on (Gives-mutate_pod_seccomp_profile setting start, spec-harden_seccomp setting pod)
    ]

-- The patch that mutatePod makes is applicable, and it turns the pod into the hardened pod: nothing
-- else of the pod changes, whatever the pod, the namespace and the configuration.
pub apply-pod_patches :
    (k : KarydiaAdmission) (pod : Pod) (ns : Namespace)
    → apply (pod_patches k pod ns).operations pod ≡ some (harden k ns pod)
unfolding pod_patches harden
apply-pod_patches k pod ns =
    let (g, same) = Gives-seccomp pod (get_seccomp_profile_setting k ns) in
    elim (Bool-cases ((get_security_context_setting k ns).value == "")) [
      | inl off ↦ rw off g.applied
      | inr on ↦
          rw on
            (Gives-mutate_pod_security_context (get_security_context_setting k ns) g same).applied
    ]
