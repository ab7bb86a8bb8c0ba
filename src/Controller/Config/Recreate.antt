-- ===== src/Controller/Config/Recreate.antt =====
-- What the reconciler does when the configuration is gone from the cluster: createConfig.
use karydia.Common.{
  ℕ, zero, suc, String, ◌≡◌, ◌≢◌, refl, ◌∙◌, ap, true, Option, some, List, [], ◌∷◌, ◌++◌,
}
use karydia.Common.Run.{Error, err, Run, returns, ◌>>=◌}
use karydia.Kube.Custom.{KarydiaConfig}
use karydia.Controller.Config.{
  ConfigApi, ConfigReconciler, create_config, sync_listed, sync_config_handler,
}
use karydia.Controller.Config.Follow.{Concerns, handler-listed}
use karydia.Controller.Work.Settled.{after_sync, then_rest}
use karydia.Controller.Work.{
  key, add_rate_limited, done, actions_after, process_item, run_worker, run_config_worker,
}

-- The same key, as often as that.
abbrev pub repeat {ℓ} : {A : Type ℓ} → ℕ → List A → List A
repeat zero xs = []
repeat (suc n) xs = xs ++ repeat n xs

-- A handler that changes nothing and fails, at the same key, as often as that.
run_worker-repeat :
    {S : Type 0} (sync : String → S → Run (S × Option Error)) (k : String) (s : S) (e : Error)
    (n : ℕ)
    → sync k s ≡ returns (s, some e)
    → run_worker sync (repeat n (key k ∷ [])) s
      ≡ returns (s, repeat n (add_rate_limited k ∷ done (key k) ∷ []))
unfolding run_worker process_item actions_after
run_worker-repeat sync k s e zero h = refl
run_worker-repeat sync k s e (suc n) h =
    ap (λ x. then_rest sync (repeat n (key k ∷ [])) (after_sync k x)) h
    ∙ ap (λ x. x >>= (λ q. returns (q.0, add_rate_limited k ∷ done (key k) ∷ q.1)))
        (run_worker-repeat sync k s e n h)

module _ {Peer World : Type 0} (api : ConfigApi Peer World) where
  -- The key names the configuration in memory, which the cache does not have.
  pub record IsGone (k namespace name : String) (s : ConfigReconciler Peer World) : Type 0 where
    pub concerns : Concerns api k namespace name s
    pub failure : Error
    pub missing : api.list_config name s.world ≡ err failure
    pub not_found : failure.is_not_found ≡ true

  handler-create :
      (k namespace name : String) (s : ConfigReconciler Peer World)
      → IsGone k namespace name s
      → sync_config_handler api k s ≡ create_config api s
  unfolding sync_listed
  handler-create k namespace name s gone =
      handler-listed api k namespace name s gone.concerns
      ∙ ap (λ r. sync_listed api r s) gone.missing
      ∙ rw gone.not_found refl

  -- An API server takes no object to create whose resource version is set.
  abbrev pub Refuses : Error → Type 0
  Refuses refusal =
      (c : KarydiaConfig) (w : World)
      → c.meta.resource_version ≢ ""
      → api.create c w ≡ (w, some refusal)

  refused-create :
      (refusal : Error) (s : ConfigReconciler Peer World)
      → Refuses refusal
      → s.config.meta.resource_version ≢ ""
      → create_config api s ≡ (s, some refusal)
  unfolding create_config
  refused-create refusal s refuses set =
      ap (λ r. (record s { world = r.0 }, r.1)) (refuses s.config s.world set)

  -- If the API server refuses objects whose resource version is set, and the configuration in memory has
  -- one, as every configuration that was read from the server, then the reconciler never creates the
  -- configuration again once it is gone: however often the worker takes the key, it changes nothing and
  -- puts the key back.
  pub run_config_worker-stuck :
      (refusal : Error) (k namespace name : String) (s : ConfigReconciler Peer World) (n : ℕ)
      → Refuses refusal
      → s.config.meta.resource_version ≢ ""
      → IsGone k namespace name s
      → run_config_worker api (repeat n (key k ∷ [])) s
        ≡ returns (s, repeat n (add_rate_limited k ∷ done (key k) ∷ []))
  unfolding run_config_worker
  run_config_worker-stuck refusal k namespace name s n refuses set gone =
      run_worker-repeat (λ x t. returns (sync_config_handler api x t)) k s refusal n
        (ap (λ r. returns r)
          (handler-create k namespace name s gone ∙ refused-create refusal s refuses set))
