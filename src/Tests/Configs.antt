-- ===== src/Tests/Configs.antt =====
-- The configuration reconciler with two controllers that keep the configuration they were told.
use karydia.Common.{◌≡◌, refl, arith, eq_iff, true, false, none, some, Option, List, [], ◌∷◌}
use karydia.Common.Run.{Error, ok, returns}
use karydia.Kube.Custom.{KarydiaConfig, KarydiaConfigSpec}
use karydia.Controller.Config.{ConfigApi, ConfigReconciler, sync_config_handler}
use karydia.Controller.Config.Follow.{
  IsObedient, InStep, Concerns, sync_config_handler-InStep, sync_config_handler-again,
}
use karydia.Controller.Work.{key, other, QueueAction, run_config_worker}
use karydia.Controller.Work.Settled.{Handled, Settled, config_sync, run_config_worker-Settled}
use karydia.Tests.Data.{config_of}

-- The cluster holds one configuration.
abbrev keeper_api : ConfigApi KarydiaConfig KarydiaConfig
keeper_api = record {
  update_peer = λ config peer. (config, none);
  list_config = λ name w. ok w;
  create = λ config w. (config, none);
  split_key = λ key. ok ("", key);
}

abbrev HoldsSpec : KarydiaConfigSpec → KarydiaConfig → Type 0
HoldsSpec spec config = config.spec ≡ spec

keeper-IsObedient : IsObedient keeper_api HoldsSpec
keeper-IsObedient = record { succeeds = λ c p. refl; takes = λ c p. refl }

-- The memory is lenient, and the cluster's configuration enforces.
abbrev changed : ConfigReconciler KarydiaConfig KarydiaConfig
changed = record {
  config = config_of false;
  controllers = config_of false ∷ config_of false ∷ [];
  world = config_of true;
}

changed-Concerns : Concerns keeper_api "karydia-config" "" "karydia-config" changed
changed-Concerns = record {
  parts = refl;
  named = refl;
  nonempty = ground (arith, eq_iff "karydia-config" "");
}

sync_config_handler-InStep_example :
    ((sync_config_handler keeper_api "karydia-config" changed).1 ≡ none)
    × InStep keeper_api HoldsSpec
        (config_of true).spec
        (sync_config_handler keeper_api "karydia-config" changed).0
    × ((sync_config_handler keeper_api "karydia-config" changed).0.world ≡ changed.world)
sync_config_handler-InStep_example =
    sync_config_handler-InStep keeper_api HoldsSpec keeper-IsObedient "karydia-config" ""
      "karydia-config" changed (config_of true) changed-Concerns refl (refl, (refl, (refl, tt)))

-- The first controller refuses the update.
abbrev refusal : Error
refusal = record { message = "refused"; is_not_found = false }

abbrev stubborn_api : ConfigApi KarydiaConfig KarydiaConfig
stubborn_api = record keeper_api { update_peer = λ config peer. (peer, some refusal) }

stubborn-Concerns : Concerns stubborn_api "karydia-config" "" "karydia-config" changed
stubborn-Concerns = record {
  parts = refl;
  named = refl;
  nonempty = ground (arith, eq_iff "karydia-config" "");
}

sync_config_handler-again_example :
    sync_config_handler stubborn_api "karydia-config"
      (sync_config_handler stubborn_api "karydia-config" changed).0
    ≡ ((sync_config_handler stubborn_api "karydia-config" changed).0, none)
sync_config_handler-again_example =
    sync_config_handler-again stubborn_api "karydia-config" "" "karydia-config" changed
      (config_of true) stubborn-Concerns refl refl

run_config_worker-Settled_example :
    (r : ConfigReconciler KarydiaConfig KarydiaConfig × List QueueAction) × (errors : List
      (Option Error))
    × (run_config_worker stubborn_api (key "karydia-config" ∷ other ∷ []) changed ≡ returns r)
    × Handled (config_sync stubborn_api) changed (key "karydia-config" ∷ other ∷ []) errors r.0
    × Settled (key "karydia-config" ∷ other ∷ []) errors r.1
run_config_worker-Settled_example =
    run_config_worker-Settled stubborn_api (key "karydia-config" ∷ other ∷ []) changed
