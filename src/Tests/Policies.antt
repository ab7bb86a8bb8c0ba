-- ===== src/Tests/Policies.antt =====
-- The network policy reconciler on a cluster that is a function from names to policies.
use karydia.Common.{
  ℕ, String, ◌≡◌, ◌↔◌, refl, arith, ◌==◌, ◌&&◌, eq_iff, eq_refl, true, false, Option, none, some,
  List, [], ◌∷◌, not_nil, if◌then◌else◌,
}
use karydia.Common.Dict.{Dict, lookup}
use karydia.Common.Text.{split}
use karydia.Common.Run.{Error, errorf, Result, ok, err, Returns, returns, panics}
use karydia.Kube.{NetworkPolicy}
use karydia.Controller.Api.{Api, IsReliable}
use karydia.Controller.Policies.{
  Setting, State, expected_names, get_default_networkpolicy_setting, reconcile_policy,
}
use karydia.Controller.Handlers.{is_excluded, sync_namespace_handler}
use karydia.Controller.Policies.Sync.{IsNamed, Synced, reconcile-Synced}
use karydia.Controller.Handlers.Converge.{Converged, sync_namespace_handler-converges}
use karydia.Controller.Policies.{update_buffer, ensure_buffered, fill_buffer}
use karydia.Controller.Policies.Total.{Named}
use karydia.Controller.Handlers.{sync_network_policy_handler, delete_from}
use karydia.Controller.Handlers.Repair.{Repaired, sync_network_policy_handler-repairs}
use karydia.Controller.Handlers.Panics.{
  ReadsNil, sync_network_policy_handler-Named, sync_namespace_handler-panics,
}
use karydia.Controller.Handlers.Removal.{delete_from-order}
use karydia.Controller.Work.{key, other, QueueAction, run_network_policy_worker}
use karydia.Controller.Work.Settled.{Handled, Settled, run_network_policy_worker-Settled}
use karydia.Tests.Data.{meta_of, plain_shop}

-- A specification is a number.
abbrev Cluster : Type 0
Cluster = String → String → Option (NetworkPolicy ℕ)

abbrev put : String → String → Option (NetworkPolicy ℕ) → Cluster → Cluster
put ns name p w = λ ns' name'. if ns == ns' && name == name' then p else w ns' name'

abbrev not_found : Error
not_found = record { message = "not found"; is_not_found = true }

abbrev answer : Option (NetworkPolicy ℕ) → Result (NetworkPolicy ℕ)
answer none = err not_found
answer (some p) = ok p

abbrev cluster_api : Api ℕ Cluster
cluster_api = record {
  get_namespace = λ name w. ok plain_shop;
  list_namespace = λ name w. ok plain_shop;
  get_policy = λ ns name w. answer (w ns name);
  create_policy = λ ns p w. (put ns p.meta.name (some p) w, none);
  update_policy = λ ns p w. (put ns p.meta.name (some p) w, none);
  delete_policy = λ ns name w. (put ns name none w, none);
  list_policy = λ ns name w. answer (w ns name);
  get_karydia_policy = λ name w. ok (record {
    type_meta = record { kind = "KarydiaNetworkPolicy"; api_version = "v1alpha1" };
    meta = meta_of name [];
    spec = 1;
  });
  marshal = λ spec. spec ∷ [];
  split_key = λ key. ok ("shop", key);
}

abbrev held : Cluster → String → String → Option (NetworkPolicy ℕ)
held w = w

put-same :
    (ns name : String) (p : Option (NetworkPolicy ℕ)) (w : Cluster) → put ns name p w ns name ≡ p
put-same ns name p w = ground (arith, eq_refl ns, eq_refl name)

cluster-IsReliable : IsReliable cluster_api held
cluster-IsReliable = record {
  framed = record {
    create_frame = λ ns p w ns' n' other. rw other refl;
    update_frame = λ ns p w ns' n' other. rw other refl;
    delete_frame = λ ns n w ns' n' other. rw other refl;
  };
  list_missing = λ ns n w e. (not_found, rw e refl, refl);
  list_found = λ ns n w p e. rw e refl;
  get_missing = λ ns n w e. (not_found, rw e refl);
  get_found = λ ns n w p e. rw e refl;
  created = λ ns p w e. (refl, put-same ns p.meta.name (some p) w);
  updated = λ ns p q w e. (refl, put-same ns p.meta.name (some p) w);
  deleted = λ ns n w q e. (refl, put-same ns n none w);
}

-- The buffer has two policies, of which the first is a default one, and the cluster has none.
abbrev deny : NetworkPolicy ℕ
deny = record { meta = meta_of "deny" []; spec = 3 }

abbrev open_all : NetworkPolicy ℕ
open_all = record { meta = meta_of "open" []; spec = 4 }

abbrev start : State ℕ Cluster
start = record {
  reconciler = record {
    default_enforcement = false;
    default_network_policy_names = "deny;dns";
    default_network_policies = ("deny", deny) ∷ ("open", open_all) ∷ [];
    default_network_policy_excludes = "kube-system" ∷ [];
  };
  world = put "shop" "open" (some open_all) (λ ns name. none);
}

start-IsNamed : IsNamed cluster_api start
unfolding lookup
start-IsNamed name b e = ground (arith, eq_iff "deny" name, eq_iff "open" name)

sync_namespace_handler-converges_example :
    (s : State ℕ Cluster) × (sync_namespace_handler cluster_api "shop" start ≡ returns (s, none))
    × Converged cluster_api held "shop"
        (expected_names (get_default_networkpolicy_setting start.reconciler plain_shop))
        start
        s
unfolding is_excluded
sync_namespace_handler-converges_example =
    sync_namespace_handler-converges cluster_api held cluster-IsReliable "shop" plain_shop start
      start-IsNamed refl (ground (arith, eq_iff "shop" "kube-system"))

abbrev from_config : Setting
from_config = record { value = "deny;dns"; src = "config" }

reconcile-Synced_example :
    Synced cluster_api held "shop" "deny" deny start
      (reconcile_policy cluster_api "shop" "shop" "deny" from_config start)
unfolding lookup
reconcile-Synced_example =
    reconcile-Synced cluster_api held cluster-IsReliable "shop" "shop" "deny" from_config start deny
      refl refl

sync_network_policy_handler-repairs_example :
    (s : State ℕ Cluster) × (sync_network_policy_handler cluster_api "deny" start
      ≡ returns (s, none))
    × Repaired cluster_api held cluster-IsReliable "shop" "deny"
        (expected_names (get_default_networkpolicy_setting start.reconciler plain_shop))
        start
        s
unfolding fill_buffer ensure_buffered update_buffer lookup get_default_networkpolicy_setting split
sync_network_policy_handler-repairs_example =
    sync_network_policy_handler-repairs cluster_api held cluster-IsReliable "deny" "shop" "deny"
      plain_shop start start-IsNamed refl refl refl

sync_network_policy_handler-Named_example :
    Returns (Named cluster_api) (sync_network_policy_handler cluster_api "deny" start)
sync_network_policy_handler-Named_example =
    sync_network_policy_handler-Named cluster_api "deny" start start-IsNamed

-- A cache that fails.
abbrev failing_api : Api ℕ Cluster
failing_api = record cluster_api { list_namespace = λ name w. err (errorf "timeout") }

sync_namespace_handler-panics_example :
    (sync_namespace_handler failing_api "shop" start ≡ panics) ↔ ReadsNil failing_api "shop" start
sync_namespace_handler-panics_example =
    sync_namespace_handler-panics failing_api "shop" start start-IsNamed

abbrev forwards : Dict (NetworkPolicy ℕ)
forwards = ("deny", deny) ∷ ("open", open_all) ∷ []

abbrev backwards : Dict (NetworkPolicy ℕ)
backwards = ("open", open_all) ∷ ("deny", deny) ∷ []

same_keys : (n : String) → not_nil (lookup n forwards) ≡ not_nil (lookup n backwards)
unfolding lookup
same_keys n = ground (arith, eq_iff "deny" n, eq_iff "open" n)

delete_from-order_example :
    ((delete_from cluster_api forwards ("dns" ∷ []) "shop" start.world).1
      ≡ (delete_from cluster_api backwards ("dns" ∷ []) "shop" start.world).1)
    × ((ns' n' : String)
        → held (delete_from cluster_api forwards ("dns" ∷ []) "shop" start.world).0 ns' n'
          ≡ held (delete_from cluster_api backwards ("dns" ∷ []) "shop" start.world).0 ns' n')
delete_from-order_example =
    delete_from-order cluster_api held cluster-IsReliable ("dns" ∷ []) "shop" forwards backwards
      start.world same_keys

run_network_policy_worker-Settled_example :
    (r : State ℕ Cluster × List QueueAction) × (errors : List (Option Error))
    × (run_network_policy_worker cluster_api (key "deny" ∷ other ∷ []) start ≡ returns r)
    × Handled (sync_network_policy_handler cluster_api) start (key "deny" ∷ other ∷ []) errors r.0
    × Settled (key "deny" ∷ other ∷ []) errors r.1
    × IsNamed cluster_api r.0
run_network_policy_worker-Settled_example =
    run_network_policy_worker-Settled cluster_api (key "deny" ∷ other ∷ []) start start-IsNamed
