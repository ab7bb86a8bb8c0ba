-- ===== src/Runserver/Lifecycle.antt =====
-- cli/cmd/runserver.go from its goroutines on: the server, its shutdown, the two reconcilers and the
-- handling of signals, interleaved in any order, up to the end of the program.
pub mod Graceful
pub mod Ends
use karydia.Common.{ℕ, Bool, true, false, ◌≡◌, ◌≢◌, ◌⊎◌, Option, none, some, List, ◌∷◌, ◌++◌}
use karydia.Controller.Work.{Item}
use karydia.Common.Run.{Error}
use karydia.Controller.Lifecycle.{
  Worker, holding, Runner, initial, config_setup, policy_setup, returned,
}
use karydia.Controller.Lifecycle as Run

-- The goroutine that listens, which logs an error that is not http.ErrServerClosed.
pub data Server : Type 0 where
  serving : Server
  served : Server

-- The goroutine that shuts the server down once the context is done.
pub data Shutdown : Type 0 where
  waiting : Shutdown
  shutting : Shutdown
  shut : Shutdown

-- main returns, or os.Exit(1) ends the program, or a goroutine brings it down: a panic in a handler, which
-- wait.Until's HandleCrash raises again, or two handlers that write one map at once.
pub data Outcome : Type 0 where
  alive : Outcome
  finished : Outcome
  aborted : Outcome
  crashed : Outcome

-- The context is cancelled or not; its channel is the stop channel of both reconcilers. The reconciler of
-- policies is there if it is enabled.
pub record Process : Type 0 where
  pub signals : ℕ
  pub cancelled : Bool
  pub server : Server
  pub shutdown : Shutdown
  pub config : Runner
  pub policies : Option Runner
  pub outcome : Outcome

abbrev pub stopped_runner : Runner → Runner
stopped_runner r = record r { stopped = true }

abbrev pub stopped_policies : Option Runner → Option Runner
stopped_policies none = none
stopped_policies (some r) = some (stopped_runner r)

-- cancelCtx
unfoldable pub cancel : Process → Process
cancel p = record p {
  cancelled = true;
  config = stopped_runner p.config;
  policies = stopped_policies p.policies;
}

-- The number of workers that runserverFunc asks for, of each queue.
abbrev pub threads : ℕ
threads = 2

abbrev pub HasReturned : Runner → Type 0
HasReturned r = (e : Option Error) × (r.phase ≡ returned e)

abbrev pub HaveReturned : Option Runner → Type 0
HaveReturned none = Unit {0}
HaveReturned (some r) = HasReturned r

-- A worker is in a handler, with an item.
abbrev pub IsHandling : Runner → Type 0
IsHandling r =
    (before behind : List Worker) × (w : Worker) × (item : Item) × (r.workers
      ≡ before ++ w ∷ behind)
    × (w.position ≡ holding item)

abbrev pub AreHandling : Option Runner → Type 0
AreHandling none = ⊥
AreHandling (some r) = IsHandling r

-- A step of the program. The server may fail at any time; it is closed once the shutdown has begun. A
-- handler may bring the program down at any time; net/http recovers the panics of the server's handlers.
pub data Step (p : Process) : Process → Type 0 where
  first_signal : p.outcome ≡ alive → p.signals ≡ 0 → Step p (cancel (record p { signals = 1 }))
  second_signal :
      p.outcome ≡ alive → p.signals ≡ 1 → Step p (record p { signals = 2; outcome = aborted })
  listen_error : p.outcome ≡ alive → p.server ≡ serving → Step p (record p { server = served })
  server_closed :
      p.outcome ≡ alive
      → p.server ≡ serving
      → p.shutdown ≢ waiting
      → Step p (record p { server = served })
  begin_shutdown :
      p.outcome ≡ alive
      → p.cancelled ≡ true
      → p.shutdown ≡ waiting
      → Step p (record p { shutdown = shutting })
  end_shutdown : p.outcome ≡ alive → p.shutdown ≡ shutting → Step p (record p { shutdown = shut })
  config_step :
      (r : Runner)
      → p.outcome ≡ alive
      → Run.Step (config_setup threads) p.config r
      → r.stopped ≡ p.config.stopped
      → Step p (record p { config = r })
  policies_step :
      (r r' : Runner)
      → p.outcome ≡ alive
      → p.policies ≡ some r
      → Run.Step (policy_setup threads) r r'
      → r'.stopped ≡ r.stopped
      → Step p (record p { policies = some r' })
  crash :
      p.outcome ≡ alive
      → IsHandling p.config ⊎ AreHandling p.policies
      → Step p (record p { outcome = crashed })
  -- <-ctx.Done(), and wg.Wait() for all four goroutines
  join :
      p.outcome ≡ alive
      → p.cancelled ≡ true
      → p.server ≡ served
      → p.shutdown ≡ shut
      → HasReturned p.config
      → HaveReturned p.policies
      → Step p (record p { outcome = finished })

-- The goroutines are started, the second reconciler if the controller is enabled.
abbrev pub policies_of : Bool → Option Runner
policies_of true = some initial
policies_of false = none

abbrev pub started : Bool → Process
started enable_controller = record {
  signals = 0;
  cancelled = false;
  server = serving;
  shutdown = waiting;
  config = initial;
  policies = policies_of enable_controller;
  outcome = alive;
}

pub data Reach (p : Process) : Process → Type 0 where
  here : Reach p p
  later : {q r : Process} → Reach p q → Step q r → Reach p r
