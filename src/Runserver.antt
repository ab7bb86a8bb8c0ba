-- ===== src/Runserver.antt =====
-- cli/cmd/runserver.go: how the program is put together from its flags, up to the start of its
-- goroutines; with pkg/util/tls/tls.go and pkg/k8sutil/clientset.go.
pub mod Lifecycle
pub mod Stock
pub mod Ready
pub mod Follows
use Prim.Native.String.{◌++◌}
use karydia.Common.{
  ℕ, num_eq, String, Bool, true, false, Option, none, some, List, [], ◌∷◌, ◌++◌ as append,
  if◌then◌else◌,
}
use karydia.Common.Dict.{Dict, insert}
use karydia.Common.Run.{Error, errorf, Result, ok, err}
use karydia.Common.Text.{split}
use karydia.Kube.{ObjectMeta, NetworkPolicy}
use karydia.Kube.Custom.{KarydiaConfig, KarydiaNetworkPolicy}
use karydia.Admission.Types.{
  KarydiaAdmission, Externals, new as new_admission, update_config as update_admission,
}
use karydia.Admission.Handler.{admit}
use karydia.Controller.Policies.{
  NetworkpolicyReconciler, new_networkpolicy_reconciler, update_config as update_reconciler,
}
use karydia.Webhook.{Webhook, new, register_admission_plugin}

-- The values of the flags, as viper returns them.
pub record Flags : Type 0 where
  pub config : String
  pub addr : String
  pub enable_karydia_admission : Bool
  pub tls_cert : String
  pub tls_key : String
  pub kubeconfig : String
  pub server : String
  pub enable_default_network_policy : Bool
  pub default_network_policy_excludes : List String

-- The program goes on, or ends by log.Fatalln with these texts.
pub data Launch (A : Type 0) : Type 0 where
  running : A → Launch A
  fatal : String → Error → Launch A

infixl 5 ◌>>=◌
abbrev pub ◌>>=◌ : {A B : Type 0} → Launch A → (A → Launch B) → Launch B
running a >>= f = f a
fatal text e >>= f = fatal text e

-- `if err != nil { log.Fatalln(text, err) }`
abbrev pub or_fatal : {A : Type 0} → String → Result A → Launch A
or_fatal text (ok a) = running a
or_fatal text (err e) = fatal text e

-- What is called and not implemented here: reading a key pair, a REST configuration from flags, the two
-- clients of a configuration, and reading the program's resources by a client.
pub record Environment (Spec Cert Rest Kube Client : Type 0) : Type 0 where
  pub load_x509_key_pair : String → String → Result Cert
  pub build_config_from_flags : String → String → Result Rest
  pub new_kubernetes : Rest → Result Kube
  pub new_client : Rest → Result Client
  pub get_config : Client → String → Result KarydiaConfig
  pub get_policy : Client → String → Result (KarydiaNetworkPolicy Spec)

-- The controllers that the program registers for changes of the configuration. The admission plugin is an
-- object with an address: the webhook has a pointer to the same object.
pub data Component (Spec : Type 0) : Type 0 where
  admission : (address : ℕ) → KarydiaAdmission → Component Spec
  policies : NetworkpolicyReconciler Spec → Component Spec

-- ControllerInterface.UpdateConfig: neither implementation returns an error.
unfoldable pub update_component :
    {Spec : Type 0} → KarydiaConfig → Component Spec → Component Spec × Option Error
update_component c (admission a k) = (admission a (update_admission c k), none)
update_component c (policies r) = (policies (update_reconciler c r), none)

-- A plugin that is registered at the webhook: its address, and its state at the registration.
pub record Plugin : Type 0 where
  pub address : ℕ
  pub object : KarydiaAdmission

-- The state of a plugin's object: only UpdateConfig changes it, so it is the state that it has among the
-- controllers, and otherwise the one at the registration.
unfoldable pub state_of : {Spec : Type 0} → List (Component Spec) → Plugin → KarydiaAdmission
state_of [] p = p.object
state_of (admission a k ∷ rest) p = if num_eq a p.address then k else state_of rest p
state_of (policies r ∷ rest) p = state_of rest p

-- The webhook with the registered plugins, by the states of their objects.
unfoldable pub webhook_of :
    {Spec : Type 0} → Externals → List (Component Spec) → List Plugin → Webhook → Webhook
webhook_of ext components [] wh = wh
webhook_of ext components (p ∷ ps) wh =
    webhook_of ext components ps (register_admission_plugin (admit ext (state_of components p)) wh)

-- The address of the one admission plugin that the program makes.
abbrev pub plugin_address : ℕ
plugin_address = 0

-- The plugins that are registered at the webhook: the admission plugin, if it is enabled.
unfoldable pub admission_plugins : Flags → KarydiaConfig → List Plugin
admission_plugins flags config =
    if flags.enable_karydia_admission
    then record { address = plugin_address; object = new_admission (some config) } ∷ []
    else []

-- What stands when the goroutines are started; the network policy reconciler runs if it is there.
pub record Program (Spec Cert : Type 0) : Type 0 where
  pub tls_certificates : List Cert
  pub addr : String
  pub config : KarydiaConfig
  pub plugins : List Plugin
  pub components : List (Component Spec)

module _ {Spec Cert Rest Kube Client : Type 0} (env : Environment Spec Cert Rest Kube Client) where
  -- tls.CreateTLSConfig: the certificates of the configuration.
  unfoldable pub create_tls_config : String → String → Result (List Cert)
  create_tls_config cert key = elim (env.load_x509_key_pair cert key) [
    | err e ↦ err e
    | ok c ↦ ok (c ∷ [])
  ]

  -- k8sutil.Clientset
  unfoldable pub clientset : String → String → Result Kube
  clientset server kubeconfig = elim (env.build_config_from_flags server kubeconfig) [
    | err e ↦ err (errorf ("error building kubeconfig: " ++ e.message))
    | ok cfg ↦ elim (env.new_kubernetes cfg) [
      | err e ↦ err (errorf ("error building kubernetes clientset: " ++ e.message))
      | ok client ↦ ok client
    ]
  ]

  abbrev pub default_policy : String → Spec → NetworkPolicy Spec
  default_policy name spec = record {
    meta = record {
      name = name;
      namespace = "";
      resource_version = "";
      annotations = [];
      deletion_timestamp = none;
    };
    spec = spec;
  }

  -- The loop over the names of the default policies.
  unfoldable pub load_policies :
      Client → List String → Dict (NetworkPolicy Spec) → Launch (Dict (NetworkPolicy Spec))
  load_policies client [] loaded = running loaded
  load_policies client (name ∷ names) loaded =
      or_fatal "Failed to load KarydiaDefaultNetworkPolicy: %v. Error: %v"
        (env.get_policy client name)
      >>= λ policy.
          load_policies client names (insert name (default_policy name policy.spec) loaded)

  unfoldable pub default_policies :
      Flags → Client → KarydiaConfig → Launch (Dict (NetworkPolicy Spec))
  default_policies flags client config =
      if flags.enable_default_network_policy
      then load_policies client (split b';' config.spec.network_policies) []
      else running []

  -- The admission plugin among the controllers, if it is enabled.
  unfoldable pub admission_components : Flags → KarydiaConfig → List (Component Spec)
  admission_components flags config =
      if flags.enable_karydia_admission
      then admission plugin_address (new_admission (some config)) ∷ []
      else []

  -- The network policy reconciler, if the controller is enabled.
  unfoldable pub policy_components :
      Flags → KarydiaConfig → Dict (NetworkPolicy Spec) → Launch (List (Component Spec))
  policy_components flags config loaded =
      if flags.enable_default_network_policy
      then (or_fatal "error building kubeconfig:"
            (env.build_config_from_flags flags.server flags.kubeconfig)
          >>= λ cfg.
              or_fatal "error building kubernetes clientset:" (env.new_kubernetes cfg) >>= λ kube.
              running (
                policies (
                  new_networkpolicy_reconciler loaded config.spec.enforcement
                    config.spec.network_policies flags.default_network_policy_excludes)
                ∷ []))
      else running []

  abbrev pub program_of :
      Flags → List Cert → KarydiaConfig → List (Component Spec) → Program Spec Cert
  program_of flags certificates config reconcilers = record {
    tls_certificates = certificates;
    addr = flags.addr;
    config = config;
    plugins = admission_plugins flags config;
    components = append (admission_components flags config) reconcilers;
  }

  -- runserverFunc from the configuration to its goroutines. The plugin's New and server.New return no
  -- errors.
  unfoldable pub assemble : Flags → List Cert → Client → KarydiaConfig → Launch (Program Spec Cert)
  assemble flags certificates client config = default_policies flags client config >>= λ loaded.
      policy_components flags config loaded >>= λ reconcilers.
      running (program_of flags certificates config reconcilers)

  -- runserverFunc up to its goroutines. webhook.New returns no error.
  unfoldable pub run_server : Flags → Launch (Program Spec Cert)
  run_server flags = do
    certificates ←
        or_fatal "Failed to create TLS config:" (create_tls_config flags.tls_cert flags.tls_key)
    kube ← or_fatal "Failed to create clientset:" (clientset flags.server flags.kubeconfig)
    cfg ←
        or_fatal "Failed to build kubeconfig:"
          (env.build_config_from_flags flags.server flags.kubeconfig)
    client ← or_fatal "Failed to build karydia clientset:" (env.new_client cfg)
    config ← or_fatal "Failed to load karydia config:" (env.get_config client flags.config)
    assemble flags certificates client config
