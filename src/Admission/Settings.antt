-- ===== src/Admission/Settings.antt =====
-- Which source wins: the annotation of the namespace or the configuration.
use karydia.Common.{
  String, true, not, ◌||◌, ◌≡◌, ◌≢◌, ◌↔◌, refl, sym, ◌∙◌, ap, Option, none, some, arith, ◌==◌,
  eq_iff, if◌then◌else◌,
}
use karydia.Common.Dict.{lookup}
use karydia.Common.Run.{returns, panics}
use karydia.Kube.{Namespace, Pod}
use karydia.Kube.Custom.{KarydiaConfig}
use karydia.Admission.Types.{KarydiaAdmission, Setting, pick_setting}
use karydia.Admission.Pod.{
  get_seccomp_profile_setting, get_security_context_setting, pod_patches, pod_errors,
}
use karydia.Admission.ServiceAccount.{get_automount_service_account_token_setting}

-- The annotation of a namespace wins over the configuration if the namespace is kube-system or
-- nothing is enforced.
abbrev pub precedence : Option String → Namespace → KarydiaConfig → String → Setting
precedence none ns config default = record { value = default; src = "config" }
precedence (some value) ns config default =
    if ns.meta.name == "kube-system" || not config.spec.enforcement
    then record { value = value; src = "namespace" }
    else record { value = default; src = "config" }

abbrev pub annotation : String → Namespace → Option String
annotation key ns = lookup key ns.meta.annotations

abbrev pub plugin : KarydiaConfig → KarydiaAdmission
plugin config = record { karydia_config = some config }

module _ (config : KarydiaConfig) (ns : Namespace) where
  -- With a configuration, the three settings follow one rule of precedence, though the code states
  -- it in two ways.
  pub settings-precedence :
      (get_seccomp_profile_setting (plugin config) ns
        ≡ precedence
            (annotation "karydia.gardener.cloud/seccompProfile" ns)
            ns
            config
            config.spec.seccomp_profile)
      × (get_security_context_setting (plugin config) ns
          ≡ precedence
              (annotation "karydia.gardener.cloud/podSecurityContext" ns)
              ns
              config
              config.spec.pod_security_context)
      × (get_automount_service_account_token_setting (plugin config) ns
          ≡ returns (
              precedence
                (annotation "karydia.gardener.cloud/automountServiceAccountToken" ns)
                ns
                config
                config.spec.automount_service_account_token))
  unfolding get_seccomp_profile_setting get_security_context_setting
      get_automount_service_account_token_setting pick_setting
  settings-precedence = (ground arith, ground arith, ground arith)

  enforced_precedence :
      (value : Option String) (default : String)
      → config.spec.enforcement ≡ true
      → ns.meta.name ≢ "kube-system"
      → precedence value ns config default ≡ record { value = default; src = "config" }
  enforced_precedence none default enforced other = refl
  enforced_precedence (some v) default enforced other =
      ground (arith, eq_iff ns.meta.name "kube-system")

-- Under enforcement and outside kube-system, annotations of the namespace do not matter: two
-- namespaces of one name give a pod the same patches and the same errors, and a service account the
-- same setting.
pub enforcement_ignores_annotations :
    (config : KarydiaConfig) (ns ns' : Namespace) (pod : Pod)
    → config.spec.enforcement ≡ true
    → ns.meta.name ≡ ns'.meta.name
    → ns.meta.name ≢ "kube-system"
    → (pod_patches (plugin config) pod ns ≡ pod_patches (plugin config) pod ns')
      × (pod_errors (plugin config) pod ns ≡ pod_errors (plugin config) pod ns')
      × (get_automount_service_account_token_setting (plugin config) ns
          ≡ get_automount_service_account_token_setting (plugin config) ns')
unfolding pod_patches pod_errors
enforcement_ignores_annotations config ns ns' pod enforced same other =
    let there : ns'.meta.name ≢ "kube-system" = λ e. other (same ∙ e) in
    let (seccomp, context, automount) = settings-precedence config ns in
    let (seccomp', context', automount') = settings-precedence config ns' in
    let agree = λ (key : String) (default : String).
      enforced_precedence config ns (annotation key ns) default enforced other
      ∙ sym (enforced_precedence config ns' (annotation key ns') default enforced there) in
    let same_seccomp =
      seccomp
      ∙ agree "karydia.gardener.cloud/seccompProfile" config.spec.seccomp_profile
      ∙ sym seccomp' in
    let same_context =
      context
      ∙ agree "karydia.gardener.cloud/podSecurityContext" config.spec.pod_security_context
      ∙ sym context' in
    (
      rw (pod_patches, same_seccomp, same_context),
      rw (pod_errors, same_seccomp, same_context),
      automount
          ∙ ap returns (
              agree "karydia.gardener.cloud/automountServiceAccountToken"
                config.spec.automount_service_account_token)
          ∙ sym automount',
    )

-- The setting for service accounts panics exactly when the namespace is not annotated and the plugin
-- has no configuration.
pub get_automount-panics :
    (k : KarydiaAdmission) (ns : Namespace)
    → (get_automount_service_account_token_setting k ns ≡ panics) ↔ (
        (k.karydia_config ≡ none)
        × (annotation "karydia.gardener.cloud/automountServiceAccountToken" ns ≡ none))
unfolding get_automount_service_account_token_setting
get_automount-panics k ns = ground arith
