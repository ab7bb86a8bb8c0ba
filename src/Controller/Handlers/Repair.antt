-- ===== src/Controller/Handlers/Repair.antt =====
-- syncNetworkPolicyHandler, with reliable calls: what a run for one policy leaves in the cluster.
use mathlib.Core.Path.{subst}
use karydia.Common.{
  String, ◌≡◌, refl, sym, ap, ◌∙◌, true, false, ◌&&◌, Option, none, some, List, arith, ◌==◌, eq_iff,
  eq_refl, not_nil, if◌then◌else◌, inl, inr, Bool-cases,
}
use karydia.Common.Run.{Error, ok, Run, returns}
use karydia.Kube.{Namespace, NetworkPolicy}
use karydia.Controller.Api.{Api, IsReliable}
use karydia.Controller.Policies.{
  Setting, State, buffered, expected_names, string_in_slice, fill_buffer, sync_expected,
  reconcile_policy, sync_network_policy, get_default_networkpolicy_setting,
}
use karydia.Controller.Policies.Sync.{IsNamed, Matches, Synced, reconcile-Synced}
use karydia.Controller.Policies.Ensure.{Grown}
use karydia.Controller.Policies.Total.{fill_buffer-Filled}
use karydia.Controller.Handlers.{
  delete_multiple_default_network_policies, sync_network_policy_in, sync_network_policy_handler,
}
use karydia.Controller.Handlers.Converge.{cleaned-fine}
use karydia.Controller.Handlers.Removal.{is_key-lookup, delete_from-Removes}

module _ {Spec World : Type 0} (api : Api Spec World)
    (policy : World → String → String → Option (NetworkPolicy Spec)) where
  -- What the first part leaves: the cluster with the policy `name` of `ns` settled, if it is expected.
  record Settled (ns name : String) (names : List String) (s : State Spec World)
      (run : Run (State Spec World × Option Error)) : Type 0 where
    after : World
    run_lem : run ≡ returns (record s { world = after }, none)
    matching :
        (b : NetworkPolicy Spec)
        → string_in_slice name names ≡ true
        → buffered api name s ≡ some b
        → Matches api policy ns name b after
    keeps :
        (ns' n' : String)
        → (ns == ns' && name == n' && string_in_slice n' names) ≡ false
        → policy after ns' n' ≡ policy s.world ns' n'

  module _ (reliable : IsReliable api policy) where
    wanted-Settled :
        (ns name : String) (names : List String) (s : State Spec World) (b : NetworkPolicy Spec)
        {run : Run (State Spec World × Option Error)}
        → string_in_slice name names ≡ true
        → buffered api name s ≡ some b
        → Synced api policy ns name b s run
        → Settled ns name names s run
    wanted-Settled ns name names s b wanted there synced = record {
      after = synced.after;
      run_lem = synced.run_lem;
      matching = λ c h e.
          let same : b ≡ c = cc (there, e) in
          subst (λ d. Matches api policy ns name d synced.after) same synced.matching;
      keeps = λ ns' n' h. synced.keeps ns' n' (elim (Bool-cases (name == n')) [
        | inr other ↦ ground arith
        | inl same ↦
            let wanted' : string_in_slice n' names ≡ true =
              subst (λ k. string_in_slice k names ≡ true) ((eq_iff name n').0 same) wanted in
            ground arith
      ]);
    }

    expected_run :
        (ns name : String) (setting : Setting) (s : State Spec World) (b : NetworkPolicy Spec)
        → string_in_slice name (expected_names setting) ≡ true
        → buffered api name s ≡ some b
        → (name == b.meta.name) ≡ true
        → sync_expected api ns name setting s ≡ reconcile_policy api name ns name setting s
    unfolding sync_expected
    expected_run ns name setting s b wanted there own =
        rw (wanted, sync_expected) (rw there (rw own refl))

    sync_expected-Settled :
        (ns name : String) (setting : Setting) (s : State Spec World)
        → IsNamed api s
        → ((n : String)
            → string_in_slice n (expected_names setting) ≡ true
            → (b : NetworkPolicy Spec) × (buffered api n s ≡ some b))
        → Settled ns name (expected_names setting) s (sync_expected api ns name setting s)
    unfolding sync_expected
    sync_expected-Settled ns name setting s named full =
        elim (Bool-cases (string_in_slice name (expected_names setting))) [
          | inr other ↦ record {
            after = s.world;
            run_lem = rw other refl;
            matching = λ b h e. cc (other, h);
            keeps = λ ns' n' h. refl;
          }
          | inl wanted ↦
              let (b, there) = full name wanted in
              let own : (name == b.meta.name) ≡ true =
                (eq_iff name b.meta.name).1 (sym (named name b there)) in
              subst (Settled ns name (expected_names setting) s)
                (sym (expected_run ns name setting s b wanted there own))
                (wanted-Settled ns name (expected_names setting) s b wanted there (
                  reconcile-Synced api policy reliable name ns name setting s b (named name b there)
                    there))
        ]

    -- A run of syncNetworkPolicyHandler for the policy `name` of the namespace `ns`, from `s` to `s'`.
    pub record Repaired (ns name : String) (names : List String) (s s' : State Spec World)
        : Type 0 where
      pub grown : Grown api s s'
      pub named : IsNamed api s'
      -- A default policy stands in the namespace with the buffer's specification.
      pub present :
          (b : NetworkPolicy Spec)
          → string_in_slice name names ≡ true
          → buffered api name s' ≡ some b
          → Matches api policy ns name b s'.world
      -- A buffered policy that is no default one of the namespace is gone.
      pub absent :
          (n : String) (b : NetworkPolicy Spec)
          → string_in_slice n names ≡ false
          → buffered api n s' ≡ some b
          → policy s'.world ns n ≡ none
      -- All else is as it was, the other default policies too.
      pub unchanged :
          (ns' n' : String)
          → (ns == ns'
              && (if string_in_slice n' names then name == n' else not_nil (buffered api n' s')))
            ≡ false
          → policy s'.world ns' n' ≡ policy s.world ns' n'

    cleaned-Repaired :
        (ns name : String) (setting : Setting) (s t : State Spec World)
        {run : Run (State Spec World × Option Error)}
        → Grown api s t
        → IsNamed api t
        → t.world ≡ s.world
        → (settled : Settled ns name (expected_names setting) t run)
        → Repaired ns name
            (expected_names setting)
            s
            (delete_multiple_default_network_policies api ns setting
              (record t { world = settled.after })).0
    unfolding delete_multiple_default_network_policies
    cleaned-Repaired ns name setting s t grown named same settled =
        let names : List String = expected_names setting in
        let (fine, removed) =
          delete_from-Removes api policy reliable names ns t.default_network_policies
            settled.after in
        record {
          grown = record {
            keeps_entries = grown.keeps_entries;
            same_enforcement = grown.same_enforcement;
            same_names = grown.same_names;
            same_excludes = grown.same_excludes;
          };
          named = named;
          present = λ b wanted there.
              let (p, found, alike) = settled.matching b wanted there in
              (p, removed ns name ∙ rw wanted (ground (arith, found)), alike);
          absent = λ n b unwanted there.
              removed ns n
              ∙ ground
                  (arith, is_key-lookup n t.default_network_policies, unwanted, there, eq_refl ns);
          unchanged = λ ns' n' h.
              removed ns' n'
              ∙ (ground (arith, is_key-lookup n' t.default_network_policies, h)
                  ∙ (settled.keeps ns' n' (ground arith) ∙ ap (λ w. policy w ns' n') same));
        }

    filled_run :
        (ns name : String) (setting : Setting) (s t : State Spec World)
        → fill_buffer api (expected_names setting) s ≡ (t, none)
        → sync_network_policy api ns name setting s ≡ sync_expected api ns name setting t
    unfolding sync_network_policy
    filled_run ns name setting s t e =
        ap {A = State Spec World × Option Error}
          (λ r. elim r.1 as (λ o. Run (State Spec World × Option Error)) [
            | none ↦ sync_expected api ns name setting r.0
            | some failed ↦ returns (r.0, none)
          ])
          e

    -- If the calls to the cluster are reliable, the buffered policies stand under their own names, the key
    -- names a policy of a namespace that is there, and the default policies of its setting can be loaded into
    -- the buffer, then the handler returns without an error and leaves the namespace repaired: that policy,
    -- if it is a default one, stands there with the buffer's specification, buffered policies that are no
    -- default ones are gone, and all else is as it was. The excluded namespaces play no part.
    pub sync_network_policy_handler-repairs :
        (key ns_name name : String) (ns : Namespace) (s : State Spec World)
        → IsNamed api s
        → api.split_key key ≡ ok (ns_name, name)
        → api.get_namespace ns_name s.world ≡ ok ns
        → (fill_buffer api (expected_names (get_default_networkpolicy_setting s.reconciler ns)) s).1
          ≡ none
        → (s' : State Spec World) × (sync_network_policy_handler api key s ≡ returns (s', none))
          × Repaired ns_name name
              (expected_names (get_default_networkpolicy_setting s.reconciler ns))
              s
              s'
    unfolding sync_network_policy_handler sync_network_policy_in
    sync_network_policy_handler-repairs key ns_name name ns s named parts found loaded =
        let setting : Setting = get_default_networkpolicy_setting s.reconciler ns in
        let names : List String = expected_names setting in
        let filled = fill_buffer-Filled api names s named in
        let t : State Spec World = (fill_buffer api names s).0 in
        let settled =
          sync_expected-Settled ns_name name setting t filled.named (filled.there loaded) in
        let u : State Spec World = record t { world = settled.after } in
        let ran = filled_run ns_name name setting s t (ap (λ o. (t, o)) loaded) ∙ settled.run_lem in
        (
          _,
          rw (parts, sync_network_policy_handler)
              (rw found (
                rw ran (
                  ap
                    (λ e.
                      returns
                        ((delete_multiple_default_network_policies api ns_name setting u).0, e))
                    (cleaned-fine api policy reliable ns_name setting u)))),
          cleaned-Repaired ns_name name setting s t filled.grown filled.named filled.same_world
              settled,
        )
