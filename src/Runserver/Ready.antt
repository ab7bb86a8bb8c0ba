-- ===== src/Runserver/Ready.antt =====
-- A program that has started: its components work by the configuration that it read, and its buffer holds
-- the default policies.
use karydia.Common.{
  ℕ, Option, map, ◌++◌, if◌then◌else◌, ap, String, ◌≡◌, refl, true, none, some, List, [], ◌∷◌, All,
  All-append, inl, inr, Bool-cases,
}
use karydia.Common.Dict.{Dict}
use karydia.Common.Run.{ok, Result-cases}
use karydia.Common.Text.{split}
use karydia.Kube.{NetworkPolicy}
use karydia.Kube.Custom.{KarydiaConfig, KarydiaConfigSpec}
use karydia.Admission.Types.{new as new_admission}
use karydia.Controller.Policies.{new_networkpolicy_reconciler}
use karydia.Runserver.{
  Flags, running, ◌>>=◌, Environment, Component, admission, policies, plugin_address,
  admission_plugins, Program, create_tls_config, clientset, load_policies, default_policies,
  admission_components, policy_components, program_of, assemble, run_server,
}
use karydia.Runserver.Stock.{
  Goes, Goes-bind, Goes-map, Goes-inv, Works, IsStock, IsFull, Loads, load_policies-Loads,
  IsStock-empty, IsReady,
}

-- Which object a controller is: the plugin by its address, or the network policy reconciler.
abbrev pub identity : {Spec : Type 0} → Component Spec → Option ℕ
identity (admission a k) = some a
identity (policies r) = none

-- The controllers that the flags ask for.
abbrev pub policy_identities : Flags → List (Option ℕ)
policy_identities flags = if flags.enable_default_network_policy then none ∷ [] else []

abbrev pub identities : Flags → List (Option ℕ)
identities flags =
    if flags.enable_karydia_admission
    then some plugin_address ∷ policy_identities flags
    else policy_identities flags

module _ {Spec Cert Rest Kube Client : Type 0} (env : Environment Spec Cert Rest Kube Client) where
  -- The default policies are loaded, if they are asked for.
  abbrev Stocked : Flags → Client → KarydiaConfig → Dict (NetworkPolicy Spec) → Type 0
  Stocked flags client config loaded =
      flags.enable_default_network_policy ≡ true
      → IsStock env client loaded
        × IsFull env client (split b';' config.spec.network_policies) loaded

  loaded-Stocked :
      (flags : Flags) (client : Client) (config : KarydiaConfig)
      → Goes (Stocked flags client config) (default_policies env flags client config)
  unfolding default_policies
  loaded-Stocked flags client config = elim (Bool-cases flags.enable_default_network_policy) [
    | inr off ↦ rw off (λ on. cc)
    | inl on ↦
        let names : List String = split b';' config.spec.network_policies in
        rw on (
          Goes-map (Loads env client names []) (λ loaded. _) (load_policies env client names [])
            (load_policies-Loads env client names [] (IsStock-empty env client))
            (λ loaded loads _. (loads.stock, loads.full)))
  ]

  -- The reconcilers are ready, and there is one exactly if the controller is enabled.
  abbrev AreReady : Flags → Client → KarydiaConfig → List (Component Spec) → Type 0
  AreReady flags client config reconcilers =
      All (IsReady env client config.spec) reconcilers
      × (map identity reconcilers ≡ policy_identities flags)

  policies-IsReady :
      (flags : Flags) (client : Client) (config : KarydiaConfig)
      (loaded : Dict (NetworkPolicy Spec))
      → Stocked flags client config loaded
      → Goes (AreReady flags client config) (policy_components env flags config loaded)
  unfolding policy_components new_networkpolicy_reconciler
  policies-IsReady flags client config loaded stocked =
      elim (Bool-cases flags.enable_default_network_policy) [
        | inr off ↦ rw off (tt, refl)
        | inl on ↦
            rw on (elim (Result-cases (env.build_config_from_flags flags.server flags.kubeconfig)) [
              | inr (e, bad) ↦ rw bad tt
              | inl (cfg, good) ↦ rw good (elim (Result-cases (env.new_kubernetes cfg)) [
                | inr (e, bad) ↦ rw bad tt
                | inl (kube, made) ↦
                    rw made ((((refl, refl), (stocked on).0, (stocked on).1), tt), refl)
              ])
            ])
      ]

  -- What the program stands on: it read its configuration, and its components are ready.
  pub record HasStarted (flags : Flags) (p : Program Spec Cert) : Type 0 where
    pub client : Client
    pub read : env.get_config client flags.config ≡ ok p.config
    pub ready : All (IsReady env client p.config.spec) p.components
    pub registered : p.plugins ≡ admission_plugins flags p.config
    pub told : map identity p.components ≡ identities flags

  admission-IsReady :
      (flags : Flags) (client : Client) (config : KarydiaConfig)
      → All (IsReady env client config.spec) (admission_components env flags config)
  unfolding admission_components new_admission
  admission-IsReady flags client config = elim (Bool-cases flags.enable_karydia_admission) [
    | inr off ↦ rw off tt
    | inl on ↦ rw on ((config, refl, refl), tt)
  ]

  told-identities :
      (flags : Flags) (client : Client) (config : KarydiaConfig)
      (reconcilers : List (Component Spec))
      → map identity reconcilers ≡ policy_identities flags
      → map identity (admission_components env flags config ++ reconcilers) ≡ identities flags
  unfolding admission_components
  told-identities flags client config reconcilers e =
      elim (Bool-cases flags.enable_karydia_admission) [
        | inr off ↦ rw off e
        | inl on ↦ rw on (ap (λ xs. some plugin_address ∷ xs) e)
      ]

  assemble-HasStarted :
      (flags : Flags) (client : Client) (config : KarydiaConfig) (certificates : List Cert)
      → env.get_config client flags.config ≡ ok config
      → Goes (HasStarted flags) (assemble env flags certificates client config)
  unfolding assemble
  assemble-HasStarted flags client config certificates read =
      Goes-bind (Stocked flags client config) (HasStarted flags)
        (default_policies env flags client config)
        (λ loaded. policy_components env flags config loaded >>= λ reconcilers.
          running (program_of env flags certificates config reconcilers))
        (loaded-Stocked flags client config)
        (λ loaded stocked.
          Goes-bind (AreReady flags client config) (HasStarted flags)
            (policy_components env flags config loaded)
            (λ reconcilers. running (program_of env flags certificates config reconcilers))
            (policies-IsReady flags client config loaded stocked)
            (λ reconcilers all. record {
              client = client;
              read = read;
              ready =
                  All-append (IsReady env client config.spec)
                    (admission_components env flags config) reconcilers
                    (admission-IsReady flags client config) all.0;
              registered = refl;
              told = told-identities flags client config reconcilers all.1;
            }))

  -- A program that starts has read its configuration, its components work by it, and the buffer of the
  -- network policy reconciler, if that was enabled, holds exactly what the program's resources specify,
  -- under their names, every default policy among them. The admission plugin is registered at the webhook
  -- with that configuration exactly if it is enabled, and the controllers are the plugin and the network
  -- policy reconciler, each exactly if it is enabled.
  pub run_server-HasStarted :
      (flags : Flags) (p : Program Spec Cert)
      → run_server env flags ≡ running p
      → HasStarted flags p
  unfolding run_server
  run_server-HasStarted flags p e = Goes-inv (HasStarted flags) _ p (launched flags) e
    where
      launched : (flags : Flags) → Goes (HasStarted flags) (run_server env flags)
      launched flags = elim (Result-cases (create_tls_config env flags.tls_cert flags.tls_key)) [
        | inr (e, bad) ↦ rw bad tt
        | inl (certificates, good) ↦
            rw good (elim (Result-cases (clientset env flags.server flags.kubeconfig)) [
              | inr (e, bad) ↦ rw bad tt
              | inl (kube, good) ↦
                  rw good
                    (elim (Result-cases
                      (env.build_config_from_flags flags.server flags.kubeconfig)) [
                        | inr (e, bad) ↦ rw bad tt
                        | inl (cfg, good) ↦ rw good (elim (Result-cases (env.new_client cfg)) [
                          | inr (e, bad) ↦ rw bad tt
                          | inl (client, good) ↦
                              rw good (elim (Result-cases (env.get_config client flags.config)) [
                                | inr (e, bad) ↦ rw bad tt
                                | inl (config, good) ↦
                                    rw good
                                      (assemble-HasStarted flags client config certificates good)
                              ])
                        ])
                      ])
            ])
      ]

  -- The components work by the configuration.
  pub ready-Works :
      (client : Client) (spec : KarydiaConfigSpec) (components : List (Component Spec))
      → All (IsReady env client spec) components
      → All (Works spec) components
  ready-Works client spec [] all = tt
  ready-Works client spec (admission a k ∷ rest) (own, all) =
      (own, ready-Works client spec rest all)
  ready-Works client spec (policies r ∷ rest) (own, all) = (own.0, ready-Works client spec rest all)
