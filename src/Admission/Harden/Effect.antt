-- ===== src/Admission/Harden/Effect.antt =====
-- What the hardened pod satisfies: validatePod finds no error in it.
use karydia.Common.{
  String, false, ◌&&◌, ◌≡◌, refl, ◌∙◌, Option, none, some, List, [], arith, ◌==◌, is_nil,
  Bool-cases, inl, inr,
}
use karydia.Common.Dict.{Dict, lookup, insert, lookup-insert, lookup-insert_self}
use karydia.Kube.{Namespace, Pod, PodSecurityContext}
use karydia.Admission.Types.{KarydiaAdmission, Setting}
use karydia.Admission.Harden.{harden_seccomp, harden_context, harden_security, harden}
use karydia.Admission.Pod.{
  get_seccomp_profile_setting, get_security_context_setting, seccomp_key, seccomp_internal_key,
  context_internal_key, source_of, validate_pod_seccomp_profile, context_errors,
  validate_pod_security_context, pod_errors,
}

-- An annotation that is there stays there.
not_nil-insert :
    (key other value : String) (m : Dict String)
    → is_nil (lookup key m) ≡ false
    → is_nil (lookup key (insert other value m)) ≡ false
not_nil-insert key other value m h = rw lookup-insert (ground arith)

pub harden_seccomp-annotated :
    (setting : Setting) (pod : Pod)
    → is_nil (lookup seccomp_key (harden_seccomp setting pod).meta.annotations) ≡ false
unfolding harden_seccomp
harden_seccomp-annotated setting pod =
    elim (Bool-cases (is_nil (lookup seccomp_key pod.meta.annotations))) [
      | inl missing ↦ rw missing (
          not_nil-insert seccomp_key seccomp_internal_key (source_of setting) _
            (rw lookup-insert_self))
      | inr there ↦ rw there there
    ]

-- A context that the plugin leaves or makes has a user or a group.
abbrev pub HasIdentity : Option PodSecurityContext → Type 0
HasIdentity none = ⊥
HasIdentity (some sc) = (is_nil sc.run_as_user && is_nil sc.run_as_group) ≡ false

pub harden_context-HasIdentity :
    (setting : Setting) (q : Pod) (context : Option PodSecurityContext)
    → q.spec.security_context ≡ context
    → HasIdentity (harden_context setting q context).spec.security_context
unfolding harden_context
harden_context-HasIdentity setting q none e = refl
harden_context-HasIdentity setting q (some sc) e =
    elim (Bool-cases (is_nil sc.run_as_user && is_nil sc.run_as_group)) [
      | inl unset ↦ rw unset refl
      | inr set ↦ rw set (rw e set)
    ]

harden_context-annotated :
    (setting : Setting) (q : Pod) (context : Option PodSecurityContext) (key : String)
    → is_nil (lookup key q.meta.annotations) ≡ false
    → is_nil (lookup key (harden_context setting q context).meta.annotations) ≡ false
unfolding harden_context
harden_context-annotated setting q none key h = not_nil-insert key context_internal_key _ _ h
harden_context-annotated setting q (some sc) key h =
    elim (Bool-cases (is_nil sc.run_as_user && is_nil sc.run_as_group)) [
      | inl unset ↦ rw unset (not_nil-insert key context_internal_key _ _ h)
      | inr set ↦ rw set h
    ]

pub harden_security-annotated :
    (setting : Setting) (q : Pod) (key : String)
    → is_nil (lookup key q.meta.annotations) ≡ false
    → is_nil (lookup key (harden_security setting q).meta.annotations) ≡ false
unfolding harden_security
harden_security-annotated setting q key h = elim (Bool-cases (setting.value == "nobody")) [
  | inl on ↦ rw on (harden_context-annotated setting q q.spec.security_context key h)
  | inr off ↦ rw off h
]

context_errors_of_HasIdentity :
    (context : Option PodSecurityContext) (errors : List String)
    → HasIdentity context
    → context_errors context errors ≡ errors
unfolding context_errors
context_errors_of_HasIdentity none errors h = absurd h
context_errors_of_HasIdentity (some sc) errors h = rw h

security_context_errors :
    (setting : Setting) (q : Pod) (errors : List String)
    → validate_pod_security_context (harden_security setting q) setting errors ≡ errors
unfolding validate_pod_security_context harden_security
security_context_errors setting q errors = elim (Bool-cases (setting.value == "nobody")) [
  | inl on ↦ rw on (
      context_errors_of_HasIdentity _ errors
        (harden_context-HasIdentity setting q q.spec.security_context refl))
  | inr off ↦ rw off
]

seccomp_errors :
    (setting : Setting) (r : Pod) (errors : List String)
    → is_nil (lookup seccomp_key r.meta.annotations) ≡ false
    → validate_pod_seccomp_profile r setting errors ≡ errors
unfolding validate_pod_seccomp_profile
seccomp_errors setting r errors h = rw h

-- validatePod finds no error in the hardened pod, for the namespace and the configuration that it
-- was hardened with.
pub pod_errors-harden :
    (k : KarydiaAdmission) (pod : Pod) (ns : Namespace) → pod_errors k (harden k ns pod) ns ≡ []
unfolding pod_errors harden
pod_errors-harden k pod ns =
    let s : Setting = get_seccomp_profile_setting k ns in
    let c : Setting = get_security_context_setting k ns in
    elim (Bool-cases (s.value == "")) [
      | inl no_seccomp ↦ rw no_seccomp (elim (Bool-cases (c.value == "")) [
        | inl no_context ↦ rw no_context
        | inr context ↦ rw context (security_context_errors c pod [])
      ])
      | inr seccomp ↦ rw seccomp (elim (Bool-cases (c.value == "")) [
        | inl no_context ↦ rw no_context (seccomp_errors s _ [] (harden_seccomp-annotated s pod))
        | inr context ↦ rw context (
            security_context_errors c (harden_seccomp s pod) _
            ∙ seccomp_errors s _ [] (
                harden_security-annotated c (harden_seccomp s pod) seccomp_key
                  (harden_seccomp-annotated s pod)))
      ])
    ]
