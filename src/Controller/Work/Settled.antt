-- ===== src/Controller/Work/Settled.antt =====
-- What a worker does with the items of its queue.
use karydia.Common.{String, ◌≡◌, refl, ap, ◌∙◌, Option, none, some, List, [], ◌∷◌, ◌++◌}
use karydia.Common.Run.{Error, Run, returns, ◌>>=◌, Returns, Returns-inv}
use karydia.Controller.Config.{ConfigApi, ConfigReconciler, sync_config_handler}
use karydia.Controller.Work.{
  Item, key, other, QueueAction, add_rate_limited, forget, done, actions_after, process_item,
  run_worker, run_config_worker, run_network_policy_worker,
}
use karydia.Controller.Api.{Api}
use karydia.Controller.Policies.{State}
use karydia.Controller.Policies.Sync.{IsNamed}
use karydia.Controller.Handlers.{sync_network_policy_handler}
use karydia.Controller.Handlers.Panics.{sync_network_policy_handler-Named}

-- The items for which Done is called, those that are forgotten, and the texts that are put back.
abbrev pub dones : List QueueAction → List Item
dones [] = []
dones (done item ∷ rest) = item ∷ dones rest
dones (_ ∷ rest) = dones rest

abbrev pub forgotten : List QueueAction → List Item
forgotten [] = []
forgotten (forget item ∷ rest) = item ∷ forgotten rest
forgotten (_ ∷ rest) = forgotten rest

abbrev pub retried : List QueueAction → List String
retried [] = []
retried (add_rate_limited k ∷ rest) = k ∷ retried rest
retried (_ ∷ rest) = retried rest

-- What the handler returned for each item in turn, from state to state; an item that is no text is not
-- handled, which is no error.
pub data Handled {S : Type 0} (sync : String → S → Run (S × Option Error))
    : S → List Item → List (Option Error) → S → Type 0 where
  no_item : {s : S} → Handled sync s [] [] s
  no_text :
      {s t : S} {items : List Item} {errors : List (Option Error)}
      → Handled sync s items errors t
      → Handled sync s (other ∷ items) (none ∷ errors) t
  text :
      {s u t : S} {k : String} {e : Option Error} {items : List Item} {errors : List (Option Error)}
      → sync k s ≡ returns (u, e)
      → Handled sync u items errors t
      → Handled sync s (key k ∷ items) (e ∷ errors) t

-- The items without an error, and the texts with one.
abbrev pub fine : List Item → List (Option Error) → List Item
fine [] errors = []
fine (item ∷ items) [] = []
fine (item ∷ items) (none ∷ errors) = item ∷ fine items errors
fine (item ∷ items) (some e ∷ errors) = fine items errors

abbrev pub failed : List Item → List (Option Error) → List String
failed [] errors = []
failed (item ∷ items) [] = []
failed (item ∷ items) (none ∷ errors) = failed items errors
failed (key k ∷ items) (some e ∷ errors) = k ∷ failed items errors
failed (other ∷ items) (some e ∷ errors) = failed items errors

-- The calls settle the items by these errors: Done for each item, Forget for each without an error, and
-- AddRateLimited for each text with one, in the order of the items and nothing else of these.
pub record Settled (items : List Item) (errors : List (Option Error)) (actions : List QueueAction)
    : Type 0 where
  pub done_each : dones actions ≡ items
  pub forgets : forgotten actions ≡ fine items errors
  pub retries : retried actions ≡ failed items errors

Settled-actions_after :
    (k : String) (e : Option Error) (items : List Item) (errors : List (Option Error))
    (actions : List QueueAction)
    → Settled items errors actions
    → Settled (key k ∷ items) (e ∷ errors) (actions_after k e ++ actions)
unfolding actions_after
Settled-actions_after k none items errors actions h = record {
  done_each = ap (λ xs. key k ∷ xs) h.done_each;
  forgets = ap (λ xs. key k ∷ xs) h.forgets;
  retries = h.retries;
}
Settled-actions_after k (some e) items errors actions h = record {
  done_each = ap (λ xs. key k ∷ xs) h.done_each;
  forgets = h.forgets;
  retries = ap (λ xs. k ∷ xs) h.retries;
}

-- What follows the handler in a round, and what follows the round.
abbrev pub after_sync : {S : Type 0} → String → Run (S × Option Error) → Run (S × List QueueAction)
after_sync k x = x >>= λ r. returns (r.0, actions_after k r.1)

abbrev pub then_rest :
    {S : Type 0}
    → (String → S → Run (S × Option Error))
    → List Item
    → Run (S × List QueueAction)
    → Run (S × List QueueAction)
then_rest sync items x = x >>= λ r. run_worker sync items r.0 >>= λ q. returns (q.0, r.1 ++ q.1)

module _ {S : Type 0} (sync : String → S → Run (S × Option Error)) (P : S → Type 0)
    (total : (k : String) (s : S) → P s → Returns (λ r. P r.0) (sync k s)) where
  -- A worker whose handler returns from every state that has `P`, and keeps `P`.
  pub run_worker-Settled :
      (items : List Item) (s : S)
      → P s
      → (r : S × List QueueAction) × (errors : List (Option Error)) × (run_worker sync items s
          ≡ returns r)
        × Handled sync s items errors r.0
        × Settled items errors r.1
        × P r.0
  unfolding run_worker process_item
  run_worker-Settled [] s h =
      ((s, []), [], refl, no_item, record { done_each = refl; forgets = refl; retries = refl }, h)
  run_worker-Settled (other ∷ items) s h =
      let (r, errors, ran, handled, settled, kept) = run_worker-Settled items s h in
      (
        (r.0, forget other ∷ done other ∷ r.1),
        none ∷ errors,
        ap (λ x. x >>= (λ q. returns (q.0, forget other ∷ done other ∷ q.1))) ran,
        no_text handled,
        record {
          done_each = ap (λ xs. other ∷ xs) settled.done_each;
          forgets = ap (λ xs. other ∷ xs) settled.forgets;
          retries = settled.retries;
        },
        kept,
      )
  run_worker-Settled (key k ∷ items) s h =
      let (t, synced, held) = Returns-inv (λ r. P r.0) (sync k s) (total k s h) in
      let (r, errors, ran, handled, settled, kept) = run_worker-Settled items t.0 held in
      (
        (r.0, actions_after k t.1 ++ r.1),
        t.1 ∷ errors,
        ap (λ x. then_rest sync items (after_sync k x)) synced
            ∙ ap (λ x. x >>= (λ q. returns (q.0, actions_after k t.1 ++ q.1))) ran,
        text synced handled,
        Settled-actions_after k t.1 items errors r.1 settled,
        kept,
      )

module _ {Peer World : Type 0} (api : ConfigApi Peer World) where
  -- The handler of the configuration as a worker calls it, which never panics.
  abbrev pub config_sync :
      String → ConfigReconciler Peer World → Run (ConfigReconciler Peer World × Option Error)
  config_sync k s = returns (sync_config_handler api k s)

  -- The worker of the configuration always comes to the end of its items, and it ends in the state in which
  -- the handler, called for the texts in turn, ends. Done is called once for each item, in order; Forget for
  -- each item without an error of the handler, and AddRateLimited for each text with one.
  pub run_config_worker-Settled :
      (items : List Item) (s : ConfigReconciler Peer World)
      → (r : ConfigReconciler Peer World × List QueueAction) × (errors : List (Option Error))
        × (run_config_worker api items s ≡ returns r)
        × Handled config_sync s items errors r.0
        × Settled items errors r.1
  unfolding run_config_worker
  run_config_worker-Settled items s =
      let (r, errors, ran, handled, settled, _) =
        run_worker-Settled config_sync (λ _. Unit {0}) (λ k t h. tt) items s tt in
      (r, errors, ran, handled, settled)

module _ {Spec World : Type 0} (api : Api Spec World) where
  -- If the buffered policies stand under their own names, the worker for policies comes to the end of its
  -- items whatever the API answers, and it ends in the state in which the handler, called for the texts in
  -- turn, ends; there the buffered policies still stand under their own names. Done is called once for each
  -- item, in order; Forget for each item without an error of the handler, and AddRateLimited for each text
  -- with one.
  pub run_network_policy_worker-Settled :
      (items : List Item) (s : State Spec World)
      → IsNamed api s
      → (r : State Spec World × List QueueAction) × (errors : List (Option Error))
        × (run_network_policy_worker api items s ≡ returns r)
        × Handled (sync_network_policy_handler api) s items errors r.0
        × Settled items errors r.1
        × IsNamed api r.0
  unfolding run_network_policy_worker
  run_network_policy_worker-Settled items s named =
      run_worker-Settled (sync_network_policy_handler api) (IsNamed api)
        (λ k t h. sync_network_policy_handler-Named api k t h) items s named
