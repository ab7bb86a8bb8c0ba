-- ===== src/Tests/Lifecycles.antt =====
-- Runs of the reconcilers and of the whole program, step by step.
use karydia.Common.{◌≡◌, ◌↔◌, ◌⊎◌, ◌≤◌, refl, Bool, true, Option, none, some, [], ◌∷◌}
use karydia.Common.Run.{Error, errorf}
use karydia.Controller.Work.{Item, key, add_rate_limited, done}
use karydia.Controller.Work.Settled.{dones}
use karydia.Controller.Lifecycle.{
  Setup, config_setup, policy_setup, returned, Position, starting, holding, settled, Worker, Runner,
  initial, launch, begin, get, settle, finish,
}
use karydia.Controller.Lifecycle as Run
use karydia.Controller.Lifecycle.Accounts.{count}
use karydia.Controller.Lifecycle.Placed.{IsOrderly}
use karydia.Controller.Lifecycle.Orderly.{Reach-IsOrderly}
use karydia.Controller.Lifecycle.Drain.{AreEnded, Reach-AreEnded}
use karydia.Runserver.Lifecycle.{
  Process, alive, finished, aborted, crashed, IsHandling, AreHandling, served, shut, HasReturned,
  HaveReturned, cancel, first_signal, listen_error, begin_shutdown, config_step, started,
}
use karydia.Runserver.Lifecycle as Program
use karydia.Runserver.Lifecycle.Graceful.{IsOpen, AreOpen, Reach-graceful}
use karydia.Runserver.Lifecycle.Ends.{Reach-finishes}

abbrev config_run : Setup
config_run = config_setup 2

abbrev at_work : Position → Worker
at_work p = record { queue = 0; position = p }

-- The first of two workers has an item when the channel is closed, and Run returns at once.
abbrev cut_short : Runner
cut_short = record {
  stopped = true;
  phase = returned none;
  workers = at_work (holding (key "karydia-config")) ∷ at_work starting ∷ [];
  taken = key "karydia-config" ∷ [];
  calls = [];
}

cut_short-Reach : Run.Reach config_run initial cut_short
unfolding launch
cut_short-Reach =
    let synced : Run.Reach config_run initial _ = Run.later Run.here (Run.synced refl) in
    let begun = Run.later synced (Run.move [] _ (at_work starting) refl (begin refl)) in
    let got =
      Run.later begun
        (Run.move [] _ (at_work Position.getting) refl (get (key "karydia-config"))) in
    let closed = Run.later got Run.stop in
    let stopping = Run.later closed (Run.stopping refl refl) in
    Run.later (Run.later stopping (Run.shut_down 0 none refl)) (Run.return none refl)

Reach-IsOrderly_example : IsOrderly cut_short
Reach-IsOrderly_example = Reach-IsOrderly cut_short-Reach

-- Every handler fails.
abbrev busy : Item → Option Error
busy item = some (errorf "busy")

Reach-AreEnded_example :
    (t : Runner) × Run.Reach config_run cut_short t
    × (t.phase ≡ returned none)
    × AreEnded config_run busy t.workers
    × (t.taken ≡ cut_short.taken)
    × (t.calls ≡ add_rate_limited "karydia-config" ∷ done (key "karydia-config") ∷ [])
    × ((q : Item → Bool) → count q t.taken ≡ count q (dones t.calls))
Reach-AreEnded_example = Reach-AreEnded config_run busy cut_short none cut_short-Reach refl

-- The server cannot listen, the caches are synchronised, and a signal arrives.
abbrev signalled : Process
signalled = record {
  signals = 1;
  cancelled = true;
  server = served;
  shutdown = Program.waiting;
  config = record {
    stopped = true;
    phase = Run.running;
    workers = at_work starting ∷ at_work starting ∷ [];
    taken = [];
    calls = [];
  };
  policies = some (record initial { stopped = true });
  outcome = alive;
}

signalled-Reach : Program.Reach (started true) signalled
unfolding launch cancel
signalled-Reach =
    let failed : Program.Reach (started true) _ =
      Program.later Program.here (listen_error refl refl) in
    let synced = Program.later failed (config_step _ refl (Run.synced refl) refl) in
    Program.later synced (first_signal refl refl)

Reach-graceful_example :
    (signalled.signals ≡ 0
      → ((signalled.outcome ≡ alive) ⊎ (signalled.outcome ≡ crashed))
        × IsOpen signalled.config
        × AreOpen signalled.policies)
    × (signalled.outcome ≡ finished
        → (signalled.signals ≡ 1)
          × (signalled.server ≡ served)
          × (signalled.shutdown ≡ shut)
          × HasReturned signalled.config
          × HaveReturned signalled.policies)
    × ((signalled.outcome ≡ aborted) ↔ (signalled.signals ≡ 2))
    × (signalled.outcome ≡ crashed
        → (IsHandling signalled.config ⊎ AreHandling signalled.policies) × (signalled.signals ≤ 1))
Reach-graceful_example = Reach-graceful true signalled signalled-Reach

Reach-finishes_example :
    (q : Process) × Program.Reach signalled q × (q.outcome ≡ finished) × (q.signals ≡ 1)
Reach-finishes_example = Reach-finishes true signalled signalled-Reach refl refl
