-- ===== src/Controller/Handlers/Converge.antt =====
-- syncNamespaceHandler, with reliable calls: what a whole run leaves in the cluster.
use karydia.Common.{
  String, ◌≡◌, ap, ◌∙◌, true, false, ◌&&◌, ◌||◌, Option, none, some, List, arith, ◌==◌, eq_refl,
  not_nil,
}
use karydia.Common.Run.{ok, returns}
use karydia.Kube.{Namespace, NetworkPolicy}
use karydia.Controller.Api.{Api, IsReliable}
use karydia.Controller.Policies.{
  Setting, State, buffered, expected_names, string_in_slice, get_default_networkpolicy_setting,
}
use karydia.Controller.Handlers.{
  delete_multiple_default_network_policies, is_excluded, sync_namespace_in, sync_namespace_handler,
}
use karydia.Controller.Policies.Sync.{IsNamed, Matches}
use karydia.Controller.Policies.Ensure.{Grown}
use karydia.Controller.Handlers.Round.{Rounded, sync_each-Rounded}
use karydia.Controller.Handlers.Removal.{is_key-lookup, delete_from-Removes}

module _ {Spec World : Type 0} (api : Api Spec World)
    (policy : World → String → String → Option (NetworkPolicy Spec)) where
  -- The namespace `key` in the state that a run from `s` leaves, with the default policies `names`.
  pub record Converged (key : String) (names : List String) (s s' : State Spec World) : Type 0 where
    pub grown : Grown api s s'
    pub named : IsNamed api s'
    -- A default policy that is buffered stands in the namespace with the buffer's specification.
    pub present :
        (n : String) (b : NetworkPolicy Spec)
        → string_in_slice n names ≡ true
        → buffered api n s' ≡ some b
        → Matches api policy key n b s'.world
    -- A buffered policy that is no default one of the namespace is gone.
    pub absent :
        (n : String) (b : NetworkPolicy Spec)
        → string_in_slice n names ≡ false
        → buffered api n s' ≡ some b
        → policy s'.world key n ≡ none
    -- All else is as it was: other namespaces, and policies that the program does not know.
    pub unchanged :
        (ns' n' : String)
        → (key == ns' && (string_in_slice n' names || not_nil (buffered api n' s'))) ≡ false
        → policy s'.world ns' n' ≡ policy s.world ns' n'

  module _ (reliable : IsReliable api policy) (key : String) (setting : Setting) where
    cleaned-Converged :
        (s t : State Spec World)
        → Rounded api policy (expected_names setting) key s t
        → Converged key
            (expected_names setting)
            s
            (delete_multiple_default_network_policies api key setting t).0
    unfolding delete_multiple_default_network_policies
    cleaned-Converged s t rounded =
        let names : List String = expected_names setting in
        let (fine, removed) =
          delete_from-Removes api policy reliable names key t.default_network_policies t.world in
        record {
          grown = record {
            keeps_entries = rounded.grown.keeps_entries;
            same_enforcement = rounded.grown.same_enforcement;
            same_names = rounded.grown.same_names;
            same_excludes = rounded.grown.same_excludes;
          };
          named = rounded.named;
          present = λ n b wanted there.
              let (p, found, same) = rounded.matching n b wanted there in
              (p, removed key n ∙ (rw wanted (ground (arith, found))), same);
          absent = λ n b unwanted there.
              removed key n
              ∙ ground
                  (arith, is_key-lookup n t.default_network_policies, unwanted, there, eq_refl key);
          unchanged = λ ns' n' h.
              removed ns' n'
              ∙ (ground (arith, is_key-lookup n' t.default_network_policies, h)
                  ∙ rounded.others ns' n' (ground arith));
        }

    pub cleaned-fine :
        (t : State Spec World)
        → (delete_multiple_default_network_policies api key setting t).1 ≡ none
    unfolding delete_multiple_default_network_policies
    cleaned-fine t =
        (delete_from-Removes api policy reliable (expected_names setting) key
          t.default_network_policies t.world).0

  -- If the calls to the cluster are reliable, the buffered policies stand under their own names, the cache
  -- has the namespace `key`, and `key` is not excluded, then the handler returns without an error and
  -- leaves the namespace converged to the default policies of its setting.
  pub sync_namespace_handler-converges :
      (reliable : IsReliable api policy) (key : String) (ns : Namespace) (s : State Spec World)
      → IsNamed api s
      → api.list_namespace key s.world ≡ ok ns
      → is_excluded key s.default_network_policy_excludes ≡ false
      → (s' : State Spec World) × (sync_namespace_handler api key s ≡ returns (s', none))
        × Converged key (expected_names (get_default_networkpolicy_setting s.reconciler ns)) s s'
  unfolding sync_namespace_handler sync_namespace_in
  sync_namespace_handler-converges reliable key ns s named cached included =
      let setting : Setting = get_default_networkpolicy_setting s.reconciler ns in
      let (t, ran, rounded) =
        sync_each-Rounded api policy reliable (expected_names setting) key setting s named in
      (
        _,
        rw (cached, sync_namespace_handler)
            (rw included (
              rw ran (
                ap
                  (λ e. returns ((delete_multiple_default_network_policies api key setting t).0, e))
                  (cleaned-fine reliable key setting t)))),
        cleaned-Converged reliable key setting s t rounded,
      )
