-- ===== src/Controller/Work.antt =====
-- The work queues of both reconcilers: the event handlers that fill them, in the constructors and the
-- enqueue functions, and the workers that empty them. The three workers differ only in their handler.
pub mod Settled
use karydia.Common.{
  String, Bool, true, false, Option, none, some, List, [], ◌∷◌, ◌++◌, ◌==◌, if◌then◌else◌,
}
use karydia.Common.Run.{Error, Result, ok, err, Run, returns, ◌>>=◌}
use karydia.Kube.{ObjectMeta}
use karydia.Controller.Api.{Api}
use karydia.Controller.Policies.{State}
use karydia.Controller.Handlers.{sync_network_policy_handler, sync_namespace_handler}
use karydia.Controller.Config.{ConfigApi, ConfigReconciler, sync_config_handler}

-- What comes off a queue: a text, or an object of another type.
pub data Item : Type 0 where
  key : String → Item
  other : Item

-- The calls of a queue: Add, AddRateLimited, Forget, Done.
pub data QueueAction : Type 0 where
  add : String → QueueAction
  add_rate_limited : String → QueueAction
  forget : Item → QueueAction
  done : Item → QueueAction

-- enqueue, where `key_of` is cache.MetaNamespaceKeyFunc
unfoldable pub enqueue : (ObjectMeta → Result String) → ObjectMeta → List QueueAction
enqueue key_of object = elim (key_of object) [ err e ↦ [] | ok k ↦ add k ∷ [] ]

-- UpdateFunc: a resync, which keeps the version, is passed over.
unfoldable pub on_update : (ObjectMeta → Result String) → ObjectMeta → ObjectMeta → List QueueAction
on_update key_of old new =
    if new.resource_version == old.resource_version then [] else enqueue key_of new

-- The calls for a text, by the error of its handler; Done is deferred.
unfoldable pub actions_after : String → Option Error → List QueueAction
actions_after k none = forget (key k) ∷ done (key k) ∷ []
actions_after k (some e) = add_rate_limited k ∷ done (key k) ∷ []

module _ {S : Type 0} (sync : String → S → Run (S × Option Error)) where
  -- The function inside processNextWorkItem.
  unfoldable pub process_item : Item → S → Run (S × List QueueAction)
  process_item other s = returns (s, forget other ∷ done other ∷ [])
  process_item (key k) s = sync k s >>= λ r. returns (r.0, actions_after k r.1)

  -- The loop of a worker over the items that Get returns before the queue shuts down.
  unfoldable pub run_worker : List Item → S → Run (S × List QueueAction)
  run_worker [] s = returns (s, [])
  run_worker (item ∷ items) s =
      process_item item s >>= λ r. run_worker items r.0 >>= λ q. returns (q.0, r.1 ++ q.1)

unfoldable pub run_config_worker :
    {Peer World : Type 0}
    → ConfigApi Peer World
    → List Item
    → ConfigReconciler Peer World
    → Run (ConfigReconciler Peer World × List QueueAction)
run_config_worker api items s = run_worker (λ k t. returns (sync_config_handler api k t)) items s

unfoldable pub run_network_policy_worker :
    {Spec World : Type 0}
    → Api Spec World
    → List Item
    → State Spec World
    → Run (State Spec World × List QueueAction)
run_network_policy_worker api items s = run_worker (sync_network_policy_handler api) items s

unfoldable pub run_namespace_worker :
    {Spec World : Type 0}
    → Api Spec World
    → List Item
    → State Spec World
    → Run (State Spec World × List QueueAction)
run_namespace_worker api items s = run_worker (sync_namespace_handler api) items s
