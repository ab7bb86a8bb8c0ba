-- ===== src/Tests/Data.antt =====
-- The objects that the runs share.
use karydia.Common.{String, Bool, true, false, none, some, List, [], ◌∷◌}
use karydia.Common.Decimal.{pos}
use karydia.Common.Dict.{Dict}
use karydia.Kube.{ObjectMeta, Namespace, Pod, Container, ServiceAccount}
use karydia.Kube.Custom.{KarydiaConfig}
use karydia.Admission.Types.{KarydiaAdmission}

abbrev pub meta_of : String → Dict String → ObjectMeta
meta_of object annotations = record {
  name = object;
  namespace = "shop";
  resource_version = "1";
  annotations = annotations;
  deletion_timestamp = none;
}

abbrev pub shop : Namespace
shop = record {
  meta = meta_of "shop" (("karydia.gardener.cloud/podSecurityContext", "nobody") ∷ []);
}

abbrev pub plain_shop : Namespace
plain_shop = record { meta = meta_of "shop" [] }

abbrev pub config_of : Bool → KarydiaConfig
config_of enforcement = record {
  type_meta = record { kind = "KarydiaConfig"; api_version = "karydia.gardener.cloud/v1alpha1" };
  meta = meta_of "karydia-config" [];
  spec = record {
    enforcement = enforcement;
    automount_service_account_token = "change-default";
    seccomp_profile = "runtime/default";
    network_policies = "deny;dns";
    pod_security_context = "none";
  };
  status = record { service_token = "" };
}

abbrev pub lenient_plugin : KarydiaAdmission
lenient_plugin = record { karydia_config = some (config_of false) }

-- Three containers: with no security context, with an open one, and with a closed one.
abbrev pub containers : List Container
containers =
    record { name = "web"; security_context = none }
    ∷ record {
      name = "cache";
      security_context = some (record {
        run_as_user = some (pos 7);
        run_as_group = none;
        allow_privilege_escalation = none;
      });
    }
    ∷ record {
      name = "log";
      security_context = some (record {
        run_as_user = none;
        run_as_group = none;
        allow_privilege_escalation = some true;
      });
    }
    ∷ []

abbrev pub cart : Pod
cart = record {
  meta = meta_of "cart" (("team/owner", "sales") ∷ []);
  spec = record { init_containers = []; containers = containers; security_context = none };
  status = record {
    phase = "Running";
    init_container_statuses = [];
    container_statuses =
        record {
          waiting = none;
          running = none;
          terminated = some (record { exit_code = pos 2; signal = pos 0; reason = "" });
          ready = false;
        }
        ∷ [];
  };
}

abbrev pub default_account : ServiceAccount
default_account = record { meta = meta_of "default" []; automount_service_account_token = none }
