-- ===== src/Tests/Launch.antt =====
-- The program started with both features, on a cluster with three policies.
use karydia.Common.{ℕ, map, String, ◌≡◌, refl, arith, eq_iff, true, false, none, some, [], ◌∷◌}
use karydia.Common.Dict.{insert}
use karydia.Common.Text.{split}
use karydia.Common.Run.{ok}
use karydia.Kube.Custom.{KarydiaConfig}
use karydia.Admission.Types.{Externals}
use karydia.Controller.Config.{ConfigApi, new_config_reconciler, sync_config_handler}
use karydia.Controller.Config.Follow.{InStep, Concerns}
use karydia.Controller.Policies.{new_networkpolicy_reconciler}
use karydia.Webhook.{new}
use karydia.Runserver.{
  Flags, running, Environment, Component, Program, create_tls_config, clientset, default_policy,
  load_policies, default_policies, policy_components, assemble, run_server, webhook_of, program_of,
}
use karydia.Runserver.Stock.{Works}
use karydia.Runserver.Ready.{identity, HasStarted, run_server-HasStarted}
use karydia.Runserver.Follows.{wired, Judges, run_server-follows}
use karydia.Tests.Data.{meta_of, config_of, default_account, shop, cart}

-- Certificates, configurations of REST and clients are texts, and specifications numbers.
abbrev environment : Environment ℕ String String String String
environment = record {
  load_x509_key_pair = λ cert key. ok cert;
  build_config_from_flags = λ server kubeconfig. ok server;
  new_kubernetes = λ cfg. ok cfg;
  new_client = λ cfg. ok cfg;
  get_config = λ client name. ok (config_of false);
  get_policy = λ client name. ok (record {
    type_meta = record { kind = "KarydiaNetworkPolicy"; api_version = "v1alpha1" };
    meta = meta_of name [];
    spec = 1;
  });
}

abbrev flags : Flags
flags = record {
  config = "karydia-config";
  addr = "0.0.0.0:33333";
  enable_karydia_admission = true;
  tls_cert = "cert.pem";
  tls_key = "key.pem";
  kubeconfig = "";
  server = "https://api";
  enable_default_network_policy = true;
  default_network_policy_excludes = "kube-system" ∷ [];
}

abbrev started : Program ℕ String
started = program_of environment flags ("cert.pem" ∷ []) (config_of false) (
    Component.policies (
      new_networkpolicy_reconciler
        (insert "dns" (default_policy environment "dns" 1)
          (insert "deny" (default_policy environment "deny" 1) []))
        false "deny;dns" ("kube-system" ∷ []))
    ∷ [])

launch_run : run_server environment flags ≡ running started
unfolding run_server assemble create_tls_config clientset default_policies load_policies
    policy_components split
launch_run = refl

run_server-HasStarted_example : HasStarted environment flags started
run_server-HasStarted_example = run_server-HasStarted environment flags started launch_run

abbrev calls : ConfigApi (Component ℕ) KarydiaConfig
calls = record {
  update_peer = λ config component. (component, none);
  list_config = λ name w. ok w;
  create = λ config w. (config, none);
  split_key = λ key. ok ("", key);
}

started-Concerns :
    Concerns
      (wired calls)
      "karydia-config"
      ""
      "karydia-config"
      (new_config_reconciler (wired calls) started.config started.components (config_of true))
unfolding new_config_reconciler
started-Concerns = record {
  parts = refl;
  named = refl;
  nonempty = ground (arith, eq_iff "karydia-config" "");
}

abbrev externals : Externals
externals = record {
  deserialize_pod = λ raw. ok cart;
  deserialize_service_account = λ raw. ok default_account;
  get_namespace = λ name. ok shop;
  marshal = λ operations. some [];
}

run_server-follows_example :
    let r =
      sync_config_handler
        (wired calls)
        "karydia-config"
        (new_config_reconciler (wired calls) started.config started.components (config_of true)) in
    (r.1 ≡ none)
    × InStep (wired calls) Works (config_of true).spec r.0
    × (map identity r.0.controllers ≡ some 0 ∷ none ∷ [])
    × Judges externals flags
        (config_of true).spec
        (webhook_of externals r.0.controllers started.plugins new)
run_server-follows_example =
    run_server-follows environment calls externals flags started "karydia-config" ""
      "karydia-config" (config_of true) (config_of true) launch_run started-Concerns refl
