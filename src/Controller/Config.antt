-- ===== src/Controller/Config.antt =====
-- pkg/controller/config_reconciler.go: the reconciler of the program's configuration, with the
-- controllers that it tells of changes. A deep copy is the value itself.
pub mod Follow
pub mod Recreate
use karydia.Common.{
  String, Bool, true, false, not, ◌&&◌, Option, none, some, List, [], ◌∷◌, ◌==◌, if◌then◌else◌,
}
use karydia.Common.Run.{Error, Result, ok, err}
use karydia.Kube.Custom.{KarydiaConfig, KarydiaConfigSpec}

-- ControllerInterface, with `Peer` for the state of a controller, and the reconciler's own calls of the
-- API server, the cache and the key's parts.
pub record ConfigApi (Peer World : Type 0) : Type 0 where
  pub update_peer : KarydiaConfig → Peer → Peer × Option Error
  -- lister.Get
  pub list_config : String → World → Result KarydiaConfig
  -- clientset.KarydiaV1alpha1().KarydiaConfigs().Create
  pub create : KarydiaConfig → World → World × Option Error
  -- cache.SplitMetaNamespaceKey
  pub split_key : String → Result (String × String)

-- The reconciler and the cluster.
pub record ConfigReconciler (Peer World : Type 0) : Type 0 where
  pub config : KarydiaConfig
  pub controllers : List Peer
  pub world : World

abbrev pub same_bool : Bool → Bool → Bool
same_bool true b = b
same_bool false b = not b

-- reflect.DeepEqual of two specifications
unfoldable pub same_spec : KarydiaConfigSpec → KarydiaConfigSpec → Bool
same_spec a b =
    same_bool a.enforcement b.enforcement
    && a.automount_service_account_token == b.automount_service_account_token
    && a.seccomp_profile == b.seccomp_profile
    && a.network_policies == b.network_policies
    && a.pod_security_context == b.pod_security_context

module _ {Peer World : Type 0} (api : ConfigApi Peer World) where
  abbrev pub Cr : Type 0
  Cr = ConfigReconciler Peer World

  unfoldable pub new_config_reconciler :
      KarydiaConfig → List Peer → World → ConfigReconciler Peer World
  new_config_reconciler config controllers w = record {
    config = config;
    controllers = controllers;
    world = w;
  }

  unfoldable pub is_reconcile_needed : KarydiaConfig → ConfigReconciler Peer World → Bool
  is_reconcile_needed desired s = not (same_spec desired.spec s.config.spec)

  -- The loop of UpdateConfig: it ends at the first error, and the controllers behind are not told.
  unfoldable pub tell : KarydiaConfig → List Peer → List Peer × Option Error
  tell config [] = ([], none)
  tell config (p ∷ ps) =
      let rest = tell config ps in
      let (p', e) = api.update_peer config p in
      elim e [ none ↦ (p' ∷ rest.0, rest.1) | some failed ↦ (p' ∷ ps, some failed) ]

  unfoldable pub update_config :
      KarydiaConfig → ConfigReconciler Peer World → ConfigReconciler Peer World × Option Error
  update_config config s =
      let (controllers, e) = tell config s.controllers in
      (record s { config = config; controllers = controllers }, e)

  unfoldable pub create_config :
      ConfigReconciler Peer World → ConfigReconciler Peer World × Option Error
  create_config s = let (w, e) = api.create s.config s.world in (record s { world = w }, e)

  -- The handler for a key that names the configuration in memory, at the answer of the cache.
  unfoldable pub sync_listed :
      Result KarydiaConfig
      → ConfigReconciler Peer World
      → ConfigReconciler Peer World × Option Error
  sync_listed (err e) s = if e.is_not_found then create_config s else (s, some e)
  sync_listed (ok config) s =
      if is_reconcile_needed config s then update_config config s else (s, none)

  unfoldable pub sync_config_handler :
      String → ConfigReconciler Peer World → ConfigReconciler Peer World × Option Error
  sync_config_handler key s = elim (api.split_key key) [
    | err e ↦ (s, none)
    | ok (namespace, name) ↦
        if s.config.meta.name == ""
        then (s, none)
        else if name == s.config.meta.name
        then sync_listed (api.list_config name s.world) s
        else (s, none)
  ]
