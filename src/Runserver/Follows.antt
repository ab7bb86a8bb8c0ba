-- ===== src/Runserver/Follows.antt =====
-- How a change of the configuration reaches the controllers of a program that has started, and the plugin that
-- its webhook asks.
use karydia.Common.{
  ℕ, arith, Option, map, if◌then◌else◌, num_eq, ◌∙◌, String, ◌≡◌, refl, true, none, some, List, [],
  ◌∷◌, All, inl, inr, Bool-cases,
}
use karydia.Common.Run.{ok}
use karydia.Kube.Custom.{KarydiaConfig, KarydiaConfigSpec}
use karydia.Admission.Types.{
  KarydiaAdmission, Externals, new as new_admission, update_config as update_admission,
}
use karydia.Admission.Handler.{admit}
use karydia.Controller.Policies.{update_config as update_reconciler}
use karydia.Controller.Config.{ConfigApi, new_config_reconciler, sync_config_handler}
use karydia.Controller.Config.Follow.{
  IsObedient, InStep, Concerns, sync_config_handler-InStep, sync_config_handler-map,
}
use karydia.Webhook.{Webhook, new, register_admission_plugin}
use karydia.Runserver.{
  Flags, running, Environment, Component, admission, policies, update_component, Plugin, state_of,
  webhook_of, plugin_address, admission_plugins, Program, run_server,
}
use karydia.Runserver.Stock.{Works}
use karydia.Runserver.Ready.{
  identity, policy_identities, identities, ready-Works, run_server-HasStarted,
}

-- The configuration reconciler's calls, with the components of the program as its controllers.
abbrev pub wired :
    {Spec World : Type 0} → ConfigApi (Component Spec) World → ConfigApi (Component Spec) World
wired api = record api { update_peer = update_component }

wired-IsObedient :
    {Spec World : Type 0} (api : ConfigApi (Component Spec) World)
    → IsObedient (wired api) (Works {Spec = Spec})
unfolding update_component update_admission update_reconciler
wired-IsObedient {Spec = Spec} api = record { succeeds = succeeds; takes = takes }
  where
    succeeds : (c : KarydiaConfig) (p : Component Spec) → (update_component c p).1 ≡ none
    succeeds c (admission a k) = refl
    succeeds c (policies r) = refl

    takes : (c : KarydiaConfig) (p : Component Spec) → Works c.spec (update_component c p).0
    takes c (admission a k) = (c, refl, refl)
    takes c (policies r) = (refl, refl)

wired-keeps :
    {Spec World : Type 0} (api : ConfigApi (Component Spec) World) (c : KarydiaConfig)
    (p : Component Spec)
    → identity ((wired api).update_peer c p).0 ≡ identity p
unfolding update_component
wired-keeps api c (admission a k) = refl
wired-keeps api c (policies r) = refl

-- The first controller is the plugin, and works by the configuration: then the plugin's object does.
state_of-Works :
    {Spec : Type 0} (spec : KarydiaConfigSpec) (components : List (Component Spec)) (p : Plugin)
    (rest : List (Option ℕ))
    → map identity components ≡ some p.address ∷ rest
    → All (Works spec) components
    → (c : KarydiaConfig) × ((state_of components p).karydia_config ≡ some c) × (c.spec ≡ spec)
unfolding state_of
state_of-Works spec [] p rest e all = cc e
state_of-Works spec (admission a k ∷ components) p rest e (own, all) =
    let here : a ≡ p.address = cc e in
    let found : num_eq a p.address ≡ true = ground (arith, here) in rw found own
state_of-Works spec (policies r ∷ components) p rest e all = cc e

-- The webhook asks one plugin, which judges by the specification, if that is enabled, and else none.
abbrev pub Judges : Externals → Flags → KarydiaConfigSpec → Webhook → Type 0
Judges ext flags spec wh =
    (k : KarydiaAdmission) × (c : KarydiaConfig) × (wh.admission_plugins
      ≡ (if flags.enable_karydia_admission then admit ext k ∷ [] else []))
    × (k.karydia_config ≡ some c)
    × (c.spec ≡ spec)

webhook_of-Judges :
    {Spec : Type 0} (ext : Externals) (flags : Flags) (config c : KarydiaConfig)
    (components : List (Component Spec))
    → map identity components ≡ identities flags
    → All (Works c.spec) components
    → Judges ext flags c.spec (webhook_of ext components (admission_plugins flags config) new)
unfolding webhook_of register_admission_plugin admission_plugins new new_admission
webhook_of-Judges ext flags config c components told all =
    elim (Bool-cases flags.enable_karydia_admission) [
      | inr off ↦ rw off (new_admission (some c), c, refl, refl, refl)
      | inl on ↦
          let plugin : Plugin = record {
            address = plugin_address;
            object = new_admission (some config);
          } in
          let asked : identities flags ≡ some plugin_address ∷ policy_identities flags =
            rw on refl in
          let (d, own, same) =
            state_of-Works c.spec components plugin (policy_identities flags) (told ∙ asked) all in
          rw on (state_of components plugin, d, refl, own, same)
    ]

-- After the start, a run of the configuration reconciler for a configuration that the cache has ends without
-- an error. Then the controllers are still those that the flags ask for, every one works by that
-- configuration, and the webhook asks the admission plugin alone, which judges by it, or no plugin if the
-- plugin is not enabled.
pub run_server-follows :
    {Spec Cert Rest Kube Client World : Type 0} (env : Environment Spec Cert Rest Kube Client)
    (api : ConfigApi (Component Spec) World) (ext : Externals) (flags : Flags)
    (p : Program Spec Cert) (key namespace name : String) (w : World) (c : KarydiaConfig)
    → run_server env flags ≡ running p
    → Concerns
        (wired api)
        key
        namespace
        name
        (new_config_reconciler (wired api) p.config p.components w)
    → api.list_config name w ≡ ok c
    → let r =
        sync_config_handler
          (wired api)
          key
          (new_config_reconciler (wired api) p.config p.components w) in
      (r.1 ≡ none)
      × InStep (wired api) Works c.spec r.0
      × (map identity r.0.controllers ≡ identities flags)
      × Judges ext flags c.spec (webhook_of ext r.0.controllers p.plugins new)
unfolding new_config_reconciler
run_server-follows env api ext flags p key namespace name w c launched concerns cached =
    let started = run_server-HasStarted env flags p launched in
    let (fine, step, same) =
      sync_config_handler-InStep (wired api) Works (wired-IsObedient api) key namespace name _ c
        concerns cached
        (refl, ready-Works env started.client p.config.spec p.components started.ready) in
    let told =
      sync_config_handler-map (wired api) identity Works (wired-keeps api) (wired-IsObedient api)
        key namespace name _ c concerns cached
      ∙ started.told in
    (fine, step, told, rw started.registered (webhook_of-Judges ext flags p.config c _ told step.1))
