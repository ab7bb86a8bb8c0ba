-- ===== src/Admission/Harden/Again.antt =====
-- The plugin as a whole on a pod: mutating and then validating, and mutating twice.
use mathlib.Core.Path.{subst}
use karydia.Common.{
  ℕ, suc, false, ◌≡◌, refl, sym, ◌∙◌, ap, Option, none, some, List, [], ◌∷◌, map, ◌==◌, is_nil,
  Bool-cases, inl, inr,
}
use karydia.Common.Dict.{lookup}
use karydia.Kube.{Namespace, Pod, Container, PodSecurityContext, SecurityContext}
use karydia.Admission.Types.{KarydiaAdmission, Setting, Patches, no_patches}
use karydia.Admission.Patch.{apply}
use karydia.Admission.Harden.{
  harden_seccomp, harden_container_context, harden_container, harden_security, harden,
}
use karydia.Admission.Pod.{
  get_seccomp_profile_setting, get_security_context_setting, seccomp_key,
  mutate_pod_seccomp_profile, mutate_container, mutate_containers, set_context,
  mutate_pod_security_context, pod_patches, pod_errors,
}
use karydia.Kube.Review.{allow_admission_response, validating_admission_response}
use karydia.Admission.Pod.{validate_pod}
use karydia.Admission.Harden.Laws.{apply-pod_patches}
use karydia.Admission.Harden.Effect.{
  HasIdentity, harden_seccomp-annotated, harden_context-HasIdentity, harden_security-annotated,
  pod_errors-harden,
}

some-injective : {p q : Pod} → some p ≡ some q → p ≡ q
some-injective e = cc e

-- The pod that a patch of mutatePod gives is accepted by validatePod, in the same namespace and under
-- the same configuration.
pub validate_pod-apply :
    (k : KarydiaAdmission) (pod r : Pod) (ns : Namespace)
    → apply (pod_patches k pod ns).operations pod ≡ some r
    → validate_pod k r ns ≡ allow_admission_response
unfolding validate_pod validating_admission_response
validate_pod-apply k pod r ns e =
    let same : harden k ns pod ≡ r = some-injective (sym (apply-pod_patches k pod ns) ∙ e) in
    subst (λ q. validating_admission_response (pod_errors k q ns) ≡ allow_admission_response) same
      (rw (pod_errors-harden k pod ns))

mutate_container-harden :
    (i : ℕ) (context : Option SecurityContext) (p : Patches)
    → mutate_container i (some (harden_container_context context)) p ≡ p
unfolding mutate_container harden_container_context
mutate_container-harden i none p = refl
mutate_container-harden i (some sc) p = elim (Bool-cases (is_nil sc.allow_privilege_escalation)) [
  | inl unset ↦ rw unset
  | inr set ↦ rw (set, set)
]

mutate_containers-harden :
    (cs : List Container) (i : ℕ) (p : Patches)
    → mutate_containers i (map harden_container cs) p ≡ p
unfolding mutate_containers
mutate_containers-harden [] i p = refl
mutate_containers-harden (c ∷ cs) i p =
    ap (mutate_containers (suc i) (map harden_container cs))
      (mutate_container-harden i c.security_context p)
    ∙ mutate_containers-harden cs (suc i) p

set_context_of_HasIdentity :
    (pod : Pod) (setting : Setting) (p : Patches) (context : Option PodSecurityContext)
    → HasIdentity context
    → set_context pod setting p context ≡ p
unfolding set_context
set_context_of_HasIdentity pod setting p none h = absurd h
set_context_of_HasIdentity pod setting p (some sc) h = rw h

security_again :
    (setting : Setting) (q : Pod) (p : Patches)
    → mutate_pod_security_context (harden_security setting q) setting p ≡ p
unfolding mutate_pod_security_context harden_security
security_again setting q p = elim (Bool-cases (setting.value == "nobody")) [
  | inl on ↦ rw on (
      rw
        (set_context_of_HasIdentity _ setting p _
          (harden_context-HasIdentity setting q q.spec.security_context refl))
        (mutate_containers-harden q.spec.containers 0 p))
  | inr off ↦ rw off
]

seccomp_again :
    (setting : Setting) (r : Pod) (p : Patches)
    → is_nil (lookup seccomp_key r.meta.annotations) ≡ false
    → mutate_pod_seccomp_profile r setting p ≡ p
unfolding mutate_pod_seccomp_profile
seccomp_again setting r p h = rw h

no_patches-harden :
    (k : KarydiaAdmission) (pod : Pod) (ns : Namespace)
    → pod_patches k (harden k ns pod) ns ≡ no_patches
unfolding pod_patches harden
no_patches-harden k pod ns =
    let s : Setting = get_seccomp_profile_setting k ns in
    let c : Setting = get_security_context_setting k ns in
    elim (Bool-cases (s.value == "")) [
      | inl no_seccomp ↦ rw no_seccomp (elim (Bool-cases (c.value == "")) [
        | inl no_context ↦ rw no_context
        | inr context ↦ rw context (security_again c pod no_patches)
      ])
      | inr seccomp ↦ rw seccomp (elim (Bool-cases (c.value == "")) [
        | inl no_context ↦
            rw no_context (seccomp_again s _ no_patches (harden_seccomp-annotated s pod))
        | inr context ↦ rw context (
            security_again c (harden_seccomp s pod) _
            ∙ seccomp_again s _ no_patches (
                harden_security-annotated c (harden_seccomp s pod) seccomp_key
                  (harden_seccomp-annotated s pod)))
      ])
    ]

-- Mutation is idempotent: for the pod that a patch of mutatePod gives, mutatePod makes no operation.
pub pod_patches-apply :
    (k : KarydiaAdmission) (pod r : Pod) (ns : Namespace)
    → apply (pod_patches k pod ns).operations pod ≡ some r
    → pod_patches k r ns ≡ no_patches
pod_patches-apply k pod r ns e =
    let same : harden k ns pod ≡ r = some-injective (sym (apply-pod_patches k pod ns) ∙ e) in
    subst (λ q. pod_patches k q ns ≡ no_patches) same (no_patches-harden k pod ns)
