-- ===== src/Controller/Handlers/Panics.antt =====
-- When the two handlers return, with any API.
use karydia.Common.{
  String, ◌≡◌, ◌↔◌, ◌⊎◌, refl, sym, ◌∙◌, true, false, Option, none, some, List, [], ◌∷◌, inl, inr,
  Bool-cases,
}
use karydia.Common.Run.{
  Error, err, returns, panics, Result-cases, Returns, Returns-bind, Returns-inv,
}
use karydia.Kube.{Namespace}
use karydia.Controller.Api.{Api}
use karydia.Controller.Policies.{Setting, State, expected_names, get_default_networkpolicy_setting}
use karydia.Controller.Handlers.{
  is_excluded, delete_multiple_default_network_policies, sync_network_policy_in,
  sync_network_policy_handler, sync_each, sync_namespace_in, sync_namespace_handler,
}
use karydia.Controller.Policies.Sync.{IsNamed}
use karydia.Controller.Policies.Total.{Named, sync_network_policy-Named, sync_namespace-Named}

module _ {Spec World : Type 0} (api : Api Spec World) where
  deleted-Named :
      (ns : String) (setting : Setting) (s : State Spec World)
      → IsNamed api s
      → Named api (delete_multiple_default_network_policies api ns setting s)
  unfolding delete_multiple_default_network_policies
  deleted-Named ns setting s named = named

  -- syncNetworkPolicyHandler never panics, whatever the API answers, and keeps the names in the buffer right.
  pub sync_network_policy_handler-Named :
      (key : String) (s : State Spec World)
      → IsNamed api s
      → Returns (Named api) (sync_network_policy_handler api key s)
  unfolding sync_network_policy_handler sync_network_policy_in
  sync_network_policy_handler-Named key s named = elim (Result-cases (api.split_key key)) [
    | inr (e, bad) ↦ rw (bad, sync_network_policy_handler) named
    | inl (parts, good) ↦
        rw (good, sync_network_policy_handler)
          (elim (Result-cases (api.get_namespace parts.0 s.world)) [
            | inr (e, missing) ↦ rw missing named
            | inl (ns, found) ↦ rw found (
                let setting : Setting = get_default_networkpolicy_setting s.reconciler ns in
                Returns-bind (Named api) (Named api) _ _
                  (sync_network_policy-Named api parts.0 parts.1 setting s named)
                  (λ r h. deleted-Named parts.0 setting r.0 h))
          ])
  ]

  sync_each-Named :
      (names : List String) (ns : String) (setting : Setting) (s : State Spec World)
      → IsNamed api s
      → Returns (IsNamed api) (sync_each api names ns setting s)
  unfolding sync_each
  sync_each-Named [] ns setting s named = named
  sync_each-Named (name ∷ names) ns setting s named =
      Returns-bind (Named api) (IsNamed api) _ _ (sync_namespace-Named api name ns setting s named)
        (λ r h. sync_each-Named names ns setting r.0 h)

  found-Named :
      (key : String) (ns : Namespace) (s : State Spec World)
      → IsNamed api s
      → Returns (Named api) (sync_namespace_in api key (some ns) s)
  unfolding sync_namespace_in
  found-Named key ns s named =
      elim (Bool-cases (is_excluded key s.default_network_policy_excludes)) [
        | inl excluded ↦ rw excluded named
        | inr included ↦ rw included (
            let setting : Setting = get_default_networkpolicy_setting s.reconciler ns in
            Returns-bind (IsNamed api) (Named api) _ _
              (sync_each-Named (expected_names setting) key setting s named)
              (λ t h. deleted-Named key setting t h))
      ]

  -- The cache fails, though not for a missing namespace, and the namespace is not excluded.
  abbrev pub ReadsNil : String → State Spec World → Type 0
  ReadsNil key s =
      (e : Error) × (api.list_namespace key s.world ≡ err e)
      × (e.is_not_found ≡ false)
      × (is_excluded key s.default_network_policy_excludes ≡ false)

  sync_namespace_handler-ReadsNil :
      (key : String) (s : State Spec World)
      → ReadsNil key s
      → sync_namespace_handler api key s ≡ panics
  unfolding sync_namespace_handler sync_namespace_in
  sync_namespace_handler-ReadsNil key s (e, failed, other, included) =
      rw (failed, sync_namespace_handler) (rw other (rw included refl))

  excluded_in :
      (key : String) (s : State Spec World)
      → is_excluded key s.default_network_policy_excludes ≡ true
      → IsNamed api s
      → Returns (Named api) (sync_namespace_in api key none s)
  unfolding sync_namespace_in
  excluded_in key s excluded named = rw excluded named

  -- Otherwise it returns.
  sync_namespace_handler-cases :
      (key : String) (s : State Spec World)
      → IsNamed api s
      → Returns (Named api) (sync_namespace_handler api key s) ⊎ ReadsNil key s
  unfolding sync_namespace_handler
  sync_namespace_handler-cases key s named = elim (Result-cases (api.list_namespace key s.world)) [
    | inl (ns, found) ↦ inl (rw (found, sync_namespace_handler) (found-Named key ns s named))
    | inr (e, failed) ↦ elim (Bool-cases e.is_not_found) [
      | inl gone ↦ inl (rw (failed, sync_namespace_handler) (rw gone named))
      | inr other ↦ elim (Bool-cases (is_excluded key s.default_network_policy_excludes)) [
        | inr included ↦ inr (e, failed, other, included)
        | inl excluded ↦
            inl (rw (failed, sync_namespace_handler) (rw other (excluded_in key s excluded named)))
      ]
    ]
  ]

  -- syncNamespaceHandler panics exactly when the cache fails with an error that is not NotFound and the
  -- namespace is not excluded, if the buffered policies stand under their own names.
  pub sync_namespace_handler-panics :
      (key : String) (s : State Spec World)
      → IsNamed api s
      → (sync_namespace_handler api key s ≡ panics) ↔ ReadsNil key s
  sync_namespace_handler-panics key s named = (
    λ h. elim (sync_namespace_handler-cases key s named) [
      | inr nil ↦ nil
      | inl fine ↦ let (r, ran, _) = Returns-inv (Named api) _ fine in absurd (ne r (sym ran ∙ h))
    ],
    sync_namespace_handler-ReadsNil key s,
  )
    where
      ne : (r : State Spec World × Option Error) → returns r ≡ panics → ⊥
      ne r e = cc
