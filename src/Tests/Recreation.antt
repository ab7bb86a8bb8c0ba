-- ===== src/Tests/Recreation.antt =====
-- A configuration that is gone from the cluster, with an API server that refuses to create objects whose
-- resource version is set.
use karydia.Common.{
  ◌≡◌, refl, arith, eq_iff, ◌==◌, if◌then◌else◌, String, true, false, Option, none, some, [], ◌∷◌,
}
use karydia.Common.Run.{Error, Result, ok, err, returns}
use karydia.Kube.Custom.{KarydiaConfig}
use karydia.Controller.Config.{ConfigApi, ConfigReconciler}
use karydia.Controller.Config.Recreate.{repeat, IsGone, Refuses, run_config_worker-stuck}
use karydia.Controller.Work.{key, add_rate_limited, done, run_config_worker}
use karydia.Tests.Data.{config_of}

abbrev refusal : Error
refusal = record {
  message = "resourceVersion should not be set on objects to be created";
  is_not_found = false;
}

abbrev gone : Error
gone = record { message = "not found"; is_not_found = true }

abbrev find : Option KarydiaConfig → Result KarydiaConfig
find none = err gone
find (some c) = ok c

abbrev strict_api : ConfigApi KarydiaConfig (Option KarydiaConfig)
strict_api = record {
  update_peer = λ config peer. (config, none);
  list_config = λ name w. find w;
  create = λ c w. if c.meta.resource_version == "" then (some c, none) else (w, some refusal);
  split_key = λ k. ok ("", k);
}

strict_api-Refuses : Refuses strict_api refusal
strict_api-Refuses c w set = ground (arith, eq_iff c.meta.resource_version "")

abbrev versioned : String → KarydiaConfig
versioned v = record (config_of true) {
  meta = record (config_of true).meta { resource_version = v };
}

abbrev orphan : String → ConfigReconciler KarydiaConfig (Option KarydiaConfig)
orphan v = record { config = versioned v; controllers = []; world = none }

orphan-IsGone : (v : String) → IsGone strict_api "karydia-config" "" "karydia-config" (orphan v)
orphan-IsGone v = record {
  concerns = record {
    parts = refl;
    named = refl;
    nonempty = ground (arith, eq_iff "karydia-config" "");
  };
  failure = gone;
  missing = refl;
  not_found = refl;
}

run_config_worker-stuck_example :
    run_config_worker strict_api (repeat 3 (key "karydia-config" ∷ [])) (orphan "41")
    ≡ returns (
      orphan "41",
      repeat 3 (add_rate_limited "karydia-config" ∷ done (key "karydia-config") ∷ []),
    )
run_config_worker-stuck_example =
    run_config_worker-stuck strict_api refusal "karydia-config" "" "karydia-config" (orphan "41") 3
      strict_api-Refuses (ground (arith, eq_iff "41" "")) (orphan-IsGone "41")
