-- ===== src/Controller/Lifecycle.antt =====
-- Run of both reconcilers, pkg/controller/config_reconciler.go and networkpolicy_reconciler.go, with its
-- workers, interleaved in any order. Run waits for the caches, starts the workers, waits for the stop
-- channel and shuts the queues down. A handler that panics ends the program: no step leads on from there.
pub mod Accounts
pub mod Placed
pub mod Orderly
pub mod Drain
use karydia.Common.{
  ℕ, zero, suc, String, Bool, true, false, ◌≡◌, Option, none, some, List, [], ◌∷◌, ◌++◌, leb,
}
use karydia.Common.Run.{Error, errorf}
use karydia.Controller.Work.{Item, key, other, QueueAction, add_rate_limited, forget, done}

-- Where the goroutine of Run stands. Of the queues numbered below `left` it has still to shut down each,
-- from the last one on.
pub data Phase : Type 0 where
  syncing : Phase
  running : Phase
  closing : (left : ℕ) → Option Error → Phase
  returned : Option Error → Phase

-- The queues that are shut down.
abbrev pub is_down : Phase → ℕ → Bool
is_down syncing queue = false
is_down running queue = false
is_down (closing left r) queue = leb left queue
is_down (returned r) queue = true

-- Where a worker stands: in wait.Until before a round, in Get, inside the function of
-- processNextWorkItem with an item, before its deferred Done, in the pause of wait.Until, at its end.
pub data Position : Type 0 where
  starting : Position
  getting : Position
  holding : Item → Position
  settled : Item → Position
  pausing : Position
  ended : Position

pub record Worker : Type 0 where
  pub queue : ℕ
  pub position : Position

-- The first call on the queue for an item, by the error of the handler.
unfoldable pub settle_call : Item → Option Error → QueueAction
settle_call other e = forget other
settle_call (key k) none = forget (key k)
settle_call (key k) (some e) = add_rate_limited k

-- A reconciler that runs, with the items that Get has returned so far and the calls on the queues.
pub record Runner : Type 0 where
  pub stopped : Bool
  pub phase : Phase
  pub workers : List Worker
  pub taken : List Item
  pub calls : List QueueAction

-- What a move adds to the items and to the calls.
pub record Effect : Type 0 where
  pub taken : List Item
  pub calls : List QueueAction

abbrev no_effect : Effect
no_effect = record { taken = []; calls = [] }

-- A move of a worker of a queue. Get returns an item at any time, and reports the shutdown only of a
-- queue that is shut down; wait.Until begins no round once the channel is closed.
pub data Move (stopped : Bool) (down : Bool) : Position → Position → Effect → Type 0 where
  begin : stopped ≡ false → Move stopped down starting getting no_effect
  give_up : stopped ≡ true → Move stopped down starting ended no_effect
  get :
      (item : Item)
      → Move stopped down getting (holding item) (record { taken = item ∷ []; calls = [] })
  get_shutdown : down ≡ true → Move stopped down getting pausing no_effect
  settle :
      (item : Item) (e : Option Error)
      → Move stopped down
          (holding item)
          (settled item)
          (record { taken = []; calls = settle_call item e ∷ [] })
  finish :
      (item : Item)
      → Move stopped down (settled item) getting (record { taken = []; calls = done item ∷ [] })
  wake : Move stopped down pausing starting no_effect
  stop_pausing : stopped ≡ true → Move stopped down pausing ended no_effect

-- The loop that launches the workers: each round one for each queue, the last queue's behind.
abbrev pub round : ℕ → List Worker
round zero = []
round (suc n) = round n ++ record { queue = n; position = starting } ∷ []

unfoldable pub launch : ℕ → ℕ → List Worker
launch zero queues = []
launch (suc n) queues = round queues ++ launch n queues

-- What differs between the reconcilers.
pub record Setup : Type 0 where
  pub queues : ℕ
  pub threadiness : ℕ
  pub failure : String

abbrev pub config_setup : ℕ → Setup
config_setup threadiness = record {
  queues = 1;
  threadiness = threadiness;
  failure = "failed to wait for cache to sync";
}

abbrev pub policy_setup : ℕ → Setup
policy_setup threadiness = record {
  queues = 2;
  threadiness = threadiness;
  failure = "failed to wait for caches to sync";
}

abbrev pub initial : Runner
initial = record { stopped = false; phase = syncing; workers = []; taken = []; calls = [] }

-- One step. WaitForCacheSync gives up only when the channel is closed.
pub data Step (c : Setup) (s : Runner) : Runner → Type 0 where
  stop : Step c s (record s { stopped = true })
  synced :
      s.phase ≡ syncing
      → Step c s (record s { phase = running; workers = launch c.threadiness c.queues })
  not_synced :
      s.phase ≡ syncing
      → s.stopped ≡ true
      → Step c s (record s { phase = closing c.queues (some (errorf c.failure)) })
  stopping :
      s.phase ≡ running → s.stopped ≡ true → Step c s (record s { phase = closing c.queues none })
  shut_down :
      (left : ℕ) (r : Option Error)
      → s.phase ≡ closing (suc left) r
      → Step c s (record s { phase = closing left r })
  return : (r : Option Error) → s.phase ≡ closing 0 r → Step c s (record s { phase = returned r })
  move :
      (before behind : List Worker) (w : Worker) {p : Position} {e : Effect}
      → s.workers ≡ before ++ w ∷ behind
      → Move s.stopped (is_down s.phase w.queue) w.position p e
      → Step c s (record s {
        workers = before ++ record w { position = p } ∷ behind;
        taken = s.taken ++ e.taken;
        calls = s.calls ++ e.calls;
      })

pub data Reach (c : Setup) (s : Runner) : Runner → Type 0 where
  here : Reach c s s
  later : {t u : Runner} → Reach c s t → Step c t u → Reach c s u
