-- ===== src/Controller/Handlers.antt =====
-- networkpolicy_reconciler.go: the removal of policies that are no defaults, and the two handlers.
pub mod Round
pub mod Removal
pub mod Converge
pub mod Panics
pub mod Repair
use Prim.Native.String.{◌++◌}
use karydia.Common.{
  String, Bool, true, false, not, ◌&&◌, ◌||◌, Option, none, some, List, [], ◌∷◌, ◌==◌, is_nil,
  not_nil, num_eq, if◌then◌else◌,
}
use mathlib.Core.List
use karydia.Common.Dict.{Dict, lookup, insert}
use karydia.Common.Run.{Error, errorf, Result, ok, err, Run, returns, panics, deref, ◌>>=◌}
use karydia.Common.Text.{concat, split}
use karydia.Kube.{ObjectMeta, Namespace, NetworkPolicy}
use karydia.Kube.Custom.{KarydiaConfig, KarydiaNetworkPolicy}
use karydia.Kube.Review.{Bytes}
use karydia.Controller.Api.{Api}
use karydia.Controller.Policies.{
  NetworkpolicyReconciler, Setting, State, buffered, in_world, expected_names, string_in_slice,
  get_default_networkpolicy_setting, sync_network_policy, sync_namespace,
}

unfoldable pub is_excluded : String → List String → Bool
is_excluded key [] = false
is_excluded key (ns ∷ excludes) = key == ns || is_excluded key excludes

module _ {Spec World : Type 0} (api : Api Spec World) where
  -- One round of deleteMultipleDefaultNetworkPolicies, for a name of the buffer.
  unfoldable pub delete_one : String → List String → String → World → World × Option Error
  delete_one name expected ns w =
      if string_in_slice name expected then (w, none) else elim (api.get_policy ns name w) [
        | err e ↦ (w, none)
        | ok p ↦ api.delete_policy ns name w
      ]

  unfoldable pub delete_from :
      Dict (NetworkPolicy Spec) → List String → String → World → World × Option Error
  delete_from [] expected ns w = (w, none)
  delete_from ((name, p) ∷ rest) expected ns w =
      let (w', e) = delete_one name expected ns w in
      elim e [ none ↦ delete_from rest expected ns w' | some failed ↦ (w', some failed) ]

  unfoldable pub delete_multiple_default_network_policies :
      String → Setting → State Spec World → State Spec World × Option Error
  delete_multiple_default_network_policies ns setting s =
      in_world api s (delete_from s.default_network_policies (expected_names setting) ns s.world)

  -- A failure of the first part is logged and dropped.
  unfoldable pub sync_network_policy_in :
      String → String → Namespace → State Spec World → Run (State Spec World × Option Error)
  sync_network_policy_in ns_name name ns s =
      let setting = get_default_networkpolicy_setting s.reconciler ns in
      sync_network_policy api ns_name name setting s >>= λ r.
      returns (delete_multiple_default_network_policies ns_name setting r.0)

  unfoldable pub sync_network_policy_handler :
      String → State Spec World → Run (State Spec World × Option Error)
  sync_network_policy_handler key s = elim (api.split_key key) [
    | err e ↦ returns (s, none)
    | ok (ns_name, name) ↦ elim (api.get_namespace ns_name s.world) [
      | err e ↦ returns (s, none)
      | ok ns ↦ sync_network_policy_in ns_name name ns s
    ]
  ]

  -- The loop over the names; a failure is logged and dropped.
  unfoldable pub sync_each :
      List String → String → Setting → State Spec World → Run (State Spec World)
  sync_each [] ns setting s = returns s
  sync_each (name ∷ names) ns setting s =
      sync_namespace api name ns setting s >>= λ r. sync_each names ns setting r.0

  -- syncNamespaceHandler behind its first test, at the namespace or nil.
  unfoldable pub sync_namespace_in :
      String → Option Namespace → State Spec World → Run (State Spec World × Option Error)
  sync_namespace_in key ns s =
      if is_excluded key s.default_network_policy_excludes
      then returns (s, none)
      else (deref ns >>= λ found.
          let setting = get_default_networkpolicy_setting s.reconciler found in
          sync_each (expected_names setting) key setting s >>= λ s'.
          returns (delete_multiple_default_network_policies key setting s'))

  -- The cache returns nil beside an error, and only a missing namespace ends the handler.
  unfoldable pub sync_namespace_handler :
      String → State Spec World → Run (State Spec World × Option Error)
  sync_namespace_handler key s = elim (api.list_namespace key s.world) [
    | err e ↦ if e.is_not_found then returns (s, none) else sync_namespace_in key none s
    | ok ns ↦ sync_namespace_in key (some ns) s
  ]
