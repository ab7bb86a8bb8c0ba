-- ===== src/Controller/Config/Follow.antt =====
-- Who follows a changed configuration: the reconciler's memory and the controllers.
use mathlib.Core.Path.{subst}
use karydia.Common.{
  String, ◌≡◌, ◌≢◌, refl, sym, ap, ◌∙◌, Bool, true, false, Option, none, some, List, [], ◌∷◌, arith,
  ◌==◌, eq_iff, eq_refl, All, map, inl, inr, Bool-cases,
}
use karydia.Common.Run.{Error, ok}
use karydia.Kube.Custom.{KarydiaConfig, KarydiaConfigSpec}
use karydia.Controller.Config.{
  ConfigApi, ConfigReconciler, same_bool, same_spec, is_reconcile_needed, tell, update_config,
  sync_listed, sync_config_handler,
}

same_bool_eq : (a b : Bool) → same_bool a b ≡ true → a ≡ b
same_bool_eq true b h = sym h
same_bool_eq false false h = refl
same_bool_eq false true h = cc

same_bool_refl : (a : Bool) → same_bool a a ≡ true
same_bool_refl true = refl
same_bool_refl false = refl

-- Equal by the comparison is equal.
pub same_spec_eq : (a b : KarydiaConfigSpec) → same_spec a b ≡ true → a ≡ b
unfolding same_spec
same_spec_eq a b h =
    let enforced : a.enforcement ≡ b.enforcement =
      same_bool_eq a.enforcement b.enforcement (ground arith) in
    let automount =
      (eq_iff a.automount_service_account_token b.automount_service_account_token).0
        (ground arith) in
    let seccomp = (eq_iff a.seccomp_profile b.seccomp_profile).0 (ground arith) in
    let policies = (eq_iff a.network_policies b.network_policies).0 (ground arith) in
    let context = (eq_iff a.pod_security_context b.pod_security_context).0 (ground arith) in
    λ i. record {
      enforcement = enforced i;
      automount_service_account_token = automount i;
      seccomp_profile = seccomp i;
      network_policies = policies i;
      pod_security_context = context i;
    }

pub same_spec_refl : (a : KarydiaConfigSpec) → same_spec a a ≡ true
unfolding same_spec
same_spec_refl a = ground (
  arith,
  same_bool_refl a.enforcement,
  eq_refl a.automount_service_account_token,
  eq_refl a.seccomp_profile,
  eq_refl a.network_policies,
  eq_refl a.pod_security_context,
)

module _ {Peer World : Type 0} (api : ConfigApi Peer World) where
  -- A controller can work by a specification; an update succeeds, and then the controller works by it.
  pub record IsObedient (Works : KarydiaConfigSpec → Peer → Type 0) : Type 0 where
    pub succeeds : (c : KarydiaConfig) (p : Peer) → (api.update_peer c p).1 ≡ none
    pub takes : (c : KarydiaConfig) (p : Peer) → Works c.spec (api.update_peer c p).0

  tell-cons :
      (c : KarydiaConfig) (p q : Peer) (ps : List Peer)
      → api.update_peer c p ≡ (q, none)
      → tell api c (p ∷ ps) ≡ (q ∷ (tell api c ps).0, (tell api c ps).1)
  unfolding tell
  tell-cons c p q ps e =
      ap {A = Peer × Option Error}
        (λ r. elim r.1 as (λ o. List Peer × Option Error) [
          | none ↦ (r.0 ∷ (tell api c ps).0, (tell api c ps).1)
          | some failed ↦ (r.0 ∷ ps, some failed)
        ])
        e

  tell-All :
      (Works : KarydiaConfigSpec → Peer → Type 0)
      → IsObedient Works
      → (c : KarydiaConfig) (ps : List Peer)
      → ((tell api c ps).1 ≡ none) × All (Works c.spec) (tell api c ps).0
  unfolding tell
  tell-All Works obedient c [] = (refl, tt)
  tell-All Works obedient c (p ∷ ps) =
      let q : Peer = (api.update_peer c p).0 in
      let (fine, all) = tell-All Works obedient c ps in
      subst (λ r. (r.1 ≡ none) × All (Works c.spec) r.0)
        (sym (tell-cons c p q ps (ap (λ o. (q, o)) (obedient.succeeds c p))))
        (fine, (obedient.takes c p, all))

  tell-map :
      {A : Type 0} (f : Peer → A) (Works : KarydiaConfigSpec → Peer → Type 0)
      → ((c : KarydiaConfig) (p : Peer) → f (api.update_peer c p).0 ≡ f p)
      → IsObedient Works
      → (c : KarydiaConfig) (ps : List Peer) → map f (tell api c ps).0 ≡ map f ps
  unfolding tell
  tell-map f Works keeps obedient c [] = refl
  tell-map f Works keeps obedient c (p ∷ ps) =
      let q : Peer = (api.update_peer c p).0 in
      let rest = tell-map f Works keeps obedient c ps in
      ap (λ r. map f r.0) (tell-cons c p q ps (ap (λ o. (q, o)) (obedient.succeeds c p)))
      ∙ (λ i. keeps c p i ∷ rest i)

  -- All work by the specification `spec`: the memory and every controller.
  abbrev pub InStep :
      (KarydiaConfigSpec → Peer → Type 0) → KarydiaConfigSpec → ConfigReconciler Peer World → Type 0
  InStep Works spec s = (s.config.spec ≡ spec) × All (Works spec) s.controllers

  listed-InStep :
      (Works : KarydiaConfigSpec → Peer → Type 0)
      → IsObedient Works
      → (c : KarydiaConfig) (s : ConfigReconciler Peer World) → InStep Works s.config.spec s
      → ((sync_listed api (ok c) s).1 ≡ none)
        × InStep Works c.spec (sync_listed api (ok c) s).0
        × ((sync_listed api (ok c) s).0.world ≡ s.world)
  unfolding sync_listed is_reconcile_needed update_config
  listed-InStep Works obedient c s (own, all) = elim (Bool-cases (same_spec c.spec s.config.spec)) [
    | inl same ↦
        let e = same_spec_eq c.spec s.config.spec same in
        rw same (refl, (sym e, subst (λ spec. All (Works spec) s.controllers) (sym e) all), refl)
    | inr differs ↦
        let (fine, taken) = tell-All Works obedient c s.controllers in
        rw differs (fine, (refl, taken), refl)
  ]

  -- The key names the configuration in memory.
  pub record Concerns (key namespace name : String) (s : ConfigReconciler Peer World) : Type 0 where
    pub parts : api.split_key key ≡ ok (namespace, name)
    pub named : s.config.meta.name ≡ name
    pub nonempty : name ≢ ""

  pub handler-listed :
      (key namespace name : String) (s : ConfigReconciler Peer World)
      → Concerns key namespace name s
      → sync_config_handler api key s ≡ sync_listed api (api.list_config name s.world) s
  unfolding sync_config_handler
  handler-listed key namespace name s concerns =
      rw (concerns.parts, sync_config_handler)
        (let own : (name == s.config.meta.name) ≡ true =
            (eq_iff name s.config.meta.name).1 (sym concerns.named) in
          let set : (s.config.meta.name == "") ≡ false =
            ground (arith, eq_iff s.config.meta.name "", concerns.named, concerns.nonempty) in
          rw (set, own) refl)

  -- If the controllers obey, and they and the memory work by one specification, then a run for a key of
  -- the configuration that the cache has returns no error, changes nothing in the cluster, and leaves
  -- the memory and all controllers working by the specification of that configuration.
  pub sync_config_handler-InStep :
      (Works : KarydiaConfigSpec → Peer → Type 0)
      → IsObedient Works
      → (key namespace name : String) (s : ConfigReconciler Peer World) (c : KarydiaConfig)
      → Concerns key namespace name s
      → api.list_config name s.world ≡ ok c
      → InStep Works s.config.spec s
      → ((sync_config_handler api key s).1 ≡ none)
        × InStep Works c.spec (sync_config_handler api key s).0
        × ((sync_config_handler api key s).0.world ≡ s.world)
  sync_config_handler-InStep Works obedient key namespace name s c concerns cached all =
      subst (λ r. (r.1 ≡ none) × InStep Works c.spec r.0 × (r.0.world ≡ s.world))
        (sym (handler-listed key namespace name s concerns ∙ ap (λ x. sync_listed api x s) cached))
        (listed-InStep Works obedient c s all)

  listed-map :
      {A : Type 0} (f : Peer → A) (Works : KarydiaConfigSpec → Peer → Type 0)
      → ((c : KarydiaConfig) (p : Peer) → f (api.update_peer c p).0 ≡ f p)
      → IsObedient Works
      → (c : KarydiaConfig) (s : ConfigReconciler Peer World)
      → map f (sync_listed api (ok c) s).0.controllers ≡ map f s.controllers
  unfolding sync_listed is_reconcile_needed update_config
  listed-map f Works keeps obedient c s = elim (Bool-cases (same_spec c.spec s.config.spec)) [
    | inl same ↦ rw same refl
    | inr differs ↦ rw differs (tell-map f Works keeps obedient c s.controllers)
  ]

  -- Such a run keeps the controllers that there are, with all that an update keeps of each.
  pub sync_config_handler-map :
      {A : Type 0} (f : Peer → A) (Works : KarydiaConfigSpec → Peer → Type 0)
      → ((c : KarydiaConfig) (p : Peer) → f (api.update_peer c p).0 ≡ f p)
      → IsObedient Works
      → (key namespace name : String) (s : ConfigReconciler Peer World) (c : KarydiaConfig)
      → Concerns key namespace name s
      → api.list_config name s.world ≡ ok c
      → map f (sync_config_handler api key s).0.controllers ≡ map f s.controllers
  sync_config_handler-map f Works keeps obedient key namespace name s c concerns cached =
      ap (λ r. map f r.0.controllers)
        (handler-listed key namespace name s concerns ∙ ap (λ x. sync_listed api x s) cached)
      ∙ listed-map f Works keeps obedient c s

  -- What a listed configuration leaves for the next run.
  listed_again :
      (c : KarydiaConfig) (s : ConfigReconciler Peer World)
      → s.config.meta.name ≡ c.meta.name
      → (sync_listed api (ok c) (sync_listed api (ok c) s).0 ≡ ((sync_listed api (ok c) s).0, none))
        × ((sync_listed api (ok c) s).0.config.meta.name ≡ c.meta.name)
        × ((sync_listed api (ok c) s).0.world ≡ s.world)
  unfolding sync_listed is_reconcile_needed update_config
  listed_again c s named = elim (Bool-cases (same_spec c.spec s.config.spec)) [
    | inl same ↦ rw same (rw same refl, named, refl)
    | inr differs ↦ rw differs (rw (same_spec_refl c.spec) refl, refl, refl)
  ]

  -- A second run for a configuration that the cache has does nothing and returns no error, whatever the
  -- first run returned: also after an error of a controller, behind which controllers were not told.
  pub sync_config_handler-again :
      (key namespace name : String) (s : ConfigReconciler Peer World) (c : KarydiaConfig)
      → Concerns key namespace name s
      → api.list_config name s.world ≡ ok c
      → c.meta.name ≡ name
      → sync_config_handler api key (sync_config_handler api key s).0
        ≡ ((sync_config_handler api key s).0, none)
  sync_config_handler-again key namespace name s c concerns cached own =
      let (again, named, there) = listed_again c s (concerns.named ∙ sym own) in
      let t : ConfigReconciler Peer World = (sync_listed api (ok c) s).0 in
      let next : Concerns key namespace name t = record {
        parts = concerns.parts;
        named = named ∙ own;
        nonempty = concerns.nonempty;
      } in
      let cached' : api.list_config name t.world ≡ ok c =
        ap (λ w. api.list_config name w) there ∙ cached in
      subst (λ r. sync_config_handler api key r.0 ≡ (r.0, none))
        (sym (handler-listed key namespace name s concerns ∙ ap (λ x. sync_listed api x s) cached))
        (handler-listed key namespace name t next ∙ ap (λ x. sync_listed api x t) cached' ∙ again)
