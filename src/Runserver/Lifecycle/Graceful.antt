-- ===== src/Runserver/Lifecycle/Graceful.antt =====
-- What holds of the program at every point after its goroutines were started.
use mathlib.Core.Path.{subst}
use karydia.Common.{
  ℕ, ◌≤◌, Bool, true, false, ◌≡◌, ◌↔◌, ◌⊎◌, refl, sym, ◌∙◌, Option, none, some, leb, arith, inl,
  inr, Bool-cases,
}
use karydia.Controller.Lifecycle.{Runner, initial, config_setup, policy_setup}
use karydia.Controller.Lifecycle as Run
use karydia.Controller.Lifecycle.Placed.{is_closing}
use karydia.Controller.Lifecycle.Orderly.{Reach-IsOrderly}
use karydia.Runserver.Lifecycle.{
  Server, Shutdown, served, shutting, shut, Outcome, alive, finished, aborted, crashed, IsHandling,
  AreHandling, crash, Process, stopped_policies, cancel, threads, HasReturned, HaveReturned, Step,
  first_signal, second_signal, listen_error, server_closed, begin_shutdown, end_shutdown,
  config_step, policies_step, join, policies_of, started, Reach, here, later,
}

abbrev pub ConfigReach : Runner → Type 0
ConfigReach r = Run.Reach (config_setup threads) initial r

-- A reconciler's channel is the context's, and its state is one that its own steps reach.
abbrev pub IsSoundPolicies : Bool → Option Runner → Type 0
IsSoundPolicies cancelled none = Unit {0}
IsSoundPolicies cancelled (some r) =
    (r.stopped ≡ cancelled) × Run.Reach (policy_setup threads) initial r

pub record IsSound (p : Process) : Type 0 where
  pub cancels : p.cancelled ≡ leb 1 p.signals
  pub few : p.signals ≤ 2
  pub aborts : (p.outcome ≡ aborted) ↔ (p.signals ≡ 2)
  pub finishes :
      p.outcome ≡ finished
      → (p.server ≡ served)
        × (p.shutdown ≡ shut)
        × HasReturned p.config
        × HaveReturned p.policies
        × (p.cancelled ≡ true)
  pub crashes :
      p.outcome ≡ crashed → (IsHandling p.config ⊎ AreHandling p.policies) × (p.signals ≤ 1)
  pub config_stop : p.config.stopped ≡ p.cancelled
  pub config_reach : ConfigReach p.config
  pub policies_sound : IsSoundPolicies p.cancelled p.policies

policies_of-IsSound : (b : Bool) → IsSoundPolicies false (policies_of b)
policies_of-IsSound true = (refl, Run.here)
policies_of-IsSound false = tt

started-IsSound : (b : Bool) → IsSound (started b)
started-IsSound b = record {
  cancels = refl;
  few = omega arith;
  aborts = (λ e. cc e, λ e. absurd (omega arith));
  finishes = λ e. absurd (cc e);
  crashes = λ e. absurd (cc e);
  config_stop = refl;
  config_reach = Run.here;
  policies_sound = policies_of-IsSound b;
}

stopped_policies-IsSound :
    (c : Bool) (ps : Option Runner)
    → IsSoundPolicies c ps
    → IsSoundPolicies true (stopped_policies ps)
stopped_policies-IsSound c none h = tt
stopped_policies-IsSound c (some r) h = (refl, Run.later h.1 Run.stop)

-- A step that leaves the signals, the context and the outcome.
alive-IsSound :
    (p : Process) (listener : Server) (shutdown : Shutdown) (config : Runner)
    (policies : Option Runner)
    → IsSound p
    → p.outcome ≡ alive
    → config.stopped ≡ p.cancelled
    → ConfigReach config
    → IsSoundPolicies p.cancelled policies
    → IsSound
        (record p { server = listener; shutdown = shutdown; config = config; policies = policies })
alive-IsSound p listener shutdown config policies s a stop reach sound = record {
  cancels = s.cancels;
  few = s.few;
  aborts = s.aborts;
  finishes = λ h. absurd (cc (sym a ∙ h));
  crashes = λ h. absurd (cc (sym a ∙ h));
  config_stop = stop;
  config_reach = reach;
  policies_sound = sound;
}

not_two : (n : ℕ) → n ≤ 2 → (n ≡ 2 → ⊥) → n ≤ 1
not_two n few other_than = ground arith

Step-IsSound : {p q : Process} → Step p q → IsSound p → IsSound q
unfolding cancel
Step-IsSound {p = p} (first_signal a e) s = record {
  cancels = refl;
  few = omega arith;
  aborts = (λ h. absurd (cc (sym a ∙ h)), λ h. absurd (omega arith));
  finishes = λ h. absurd (cc (sym a ∙ h));
  crashes = λ h. absurd (cc (sym a ∙ h));
  config_stop = refl;
  config_reach = Run.later s.config_reach Run.stop;
  policies_sound = stopped_policies-IsSound p.cancelled p.policies s.policies_sound;
}
Step-IsSound {p = p} (second_signal a e) s = record {
  cancels = s.cancels ∙ rw e refl;
  few = omega arith;
  aborts = (λ h. refl, λ h. refl);
  finishes = λ h. absurd (cc h);
  crashes = λ h. absurd (cc h);
  config_stop = s.config_stop;
  config_reach = s.config_reach;
  policies_sound = s.policies_sound;
}
Step-IsSound {p = p} (listen_error a e) s =
    alive-IsSound p served p.shutdown p.config p.policies s a s.config_stop s.config_reach
      s.policies_sound
Step-IsSound {p = p} (server_closed a e h) s =
    alive-IsSound p served p.shutdown p.config p.policies s a s.config_stop s.config_reach
      s.policies_sound
Step-IsSound {p = p} (begin_shutdown a c e) s =
    alive-IsSound p p.server shutting p.config p.policies s a s.config_stop s.config_reach
      s.policies_sound
Step-IsSound {p = p} (end_shutdown a e) s =
    alive-IsSound p p.server shut p.config p.policies s a s.config_stop s.config_reach
      s.policies_sound
Step-IsSound {p = p} (config_step r a st e) s =
    alive-IsSound p p.server p.shutdown r p.policies s a (e ∙ s.config_stop)
      (Run.later s.config_reach st) s.policies_sound
Step-IsSound {p = p} (policies_step r r' a ps st e) s =
    let (stop, reach) : IsSoundPolicies p.cancelled (some r) =
      subst (IsSoundPolicies p.cancelled) ps s.policies_sound in
    alive-IsSound p p.server p.shutdown p.config (some r') s a s.config_stop s.config_reach
      (e ∙ stop, Run.later reach st)
Step-IsSound {p = p} (join a c e h r k) s = record {
  cancels = s.cancels;
  few = s.few;
  aborts = (λ x. absurd (cc x), λ x. absurd (cc (sym a ∙ s.aborts.1 x)));
  finishes = λ x. (e, h, r, k, c);
  crashes = λ x. absurd (cc x);
  config_stop = s.config_stop;
  config_reach = s.config_reach;
  policies_sound = s.policies_sound;
}
Step-IsSound {p = p} (crash a busy) s = record {
  cancels = s.cancels;
  few = s.few;
  aborts = (λ x. absurd (cc x), λ x. absurd (cc (sym a ∙ s.aborts.1 x)));
  finishes = λ x. absurd (cc x);
  crashes = λ x. (busy, not_two p.signals s.few (λ two. cc (sym a ∙ s.aborts.1 two)));
  config_stop = s.config_stop;
  config_reach = s.config_reach;
  policies_sound = s.policies_sound;
}

pub Reach-IsSound : (b : Bool) {p : Process} → Reach (started b) p → IsSound p
Reach-IsSound b here = started-IsSound b
Reach-IsSound b (later r st) = Step-IsSound st (Reach-IsSound b r)

-- Run has not begun to shut its queues down.
abbrev pub IsOpen : Runner → Type 0
IsOpen r = is_closing r.phase ≡ false

abbrev pub AreOpen : Option Runner → Type 0
AreOpen none = Unit {0}
AreOpen (some r) = IsOpen r

unstopped-IsOpen :
    {c : Run.Setup} (r : Runner) → Run.Reach c initial r → r.stopped ≡ false → IsOpen r
unstopped-IsOpen r reach e = elim (Bool-cases (is_closing r.phase)) [
  | inl closing ↦ absurd (cc (sym e ∙ (Reach-IsOrderly reach).stop_first closing))
  | inr open_still ↦ open_still
]

sound-AreOpen : (c : Bool) (ps : Option Runner) → c ≡ false → IsSoundPolicies c ps → AreOpen ps
sound-AreOpen c none e h = tt
sound-AreOpen c (some r) e h = unstopped-IsOpen r h.1 (h.0 ∙ e)

neither-alive : (o : Outcome) → (o ≡ finished → ⊥) → (o ≡ aborted → ⊥) → (o ≡ alive) ⊎ (o ≡ crashed)
neither-alive alive f g = inl refl
neither-alive crashed f g = inr refl
neither-alive finished f g = absurd (f refl)
neither-alive aborted f g = absurd (g refl)

one_signal : (n : ℕ) → n ≤ 2 → leb 1 n ≡ true → (n ≡ 2 → ⊥) → n ≡ 1
one_signal n few some_yet h = ground arith

-- The program after its goroutines were started, whatever its schedule: without a signal it goes on or has
-- crashed, and neither Run begins to shut down, even if the server could not listen; main returns only after
-- one signal, when the server is down, its shutdown is over and each Run has returned; os.Exit(1) is called
-- exactly at the second signal; and a program that has crashed had a worker in a handler, and no second
-- signal.
pub Reach-graceful :
    (enable_controller : Bool) (p : Process)
    → Reach (started enable_controller) p
    → (p.signals ≡ 0
        → ((p.outcome ≡ alive) ⊎ (p.outcome ≡ crashed)) × IsOpen p.config × AreOpen p.policies)
      × (p.outcome ≡ finished
          → (p.signals ≡ 1)
            × (p.server ≡ served)
            × (p.shutdown ≡ shut)
            × HasReturned p.config
            × HaveReturned p.policies)
      × ((p.outcome ≡ aborted) ↔ (p.signals ≡ 2))
      × (p.outcome ≡ crashed → (IsHandling p.config ⊎ AreHandling p.policies) × (p.signals ≤ 1))
Reach-graceful b p reach =
    let s = Reach-IsSound b reach in
    (
      λ none_yet.
          let open_context : p.cancelled ≡ false = s.cancels ∙ rw none_yet refl in
          (
            neither-alive p.outcome (λ done. cc (sym (s.finishes done).4 ∙ open_context))
                (λ done. omega (arith, none_yet, s.aborts.0 done)),
            unstopped-IsOpen p.config s.config_reach (s.config_stop ∙ open_context),
            sound-AreOpen p.cancelled p.policies open_context s.policies_sound,
          ),
      λ done.
          let (down, over, config, policies, closed) = s.finishes done in
          (
            one_signal p.signals s.few (sym s.cancels ∙ closed)
                (λ two. cc (sym done ∙ s.aborts.1 two)),
            down,
            over,
            config,
            policies,
          ),
      s.aborts,
      s.crashes,
    )
