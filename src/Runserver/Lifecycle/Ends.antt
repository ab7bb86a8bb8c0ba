-- ===== src/Runserver/Lifecycle/Ends.antt =====
-- How the program comes to its end after the first signal.
use mathlib.Core.Path.{subst}
use karydia.Common.{ℕ, zero, suc, Bool, true, ◌≡◌, refl, sym, ◌∙◌, ap, Option, none, some}
use karydia.Common.Run.{Error}
use karydia.Controller.Lifecycle.{
  Phase, syncing, running, closing, returned, Runner, Setup, config_setup, policy_setup,
}
use karydia.Controller.Lifecycle as Run
use karydia.Controller.Lifecycle.Drain as Drain
use karydia.Runserver.Lifecycle.{
  Server, serving, served, Shutdown, waiting, shutting, shut, alive, finished, Process, threads,
  HasReturned, HaveReturned, server_closed, begin_shutdown, end_shutdown, config_step,
  policies_step, join, started, Reach, here, later,
}
use karydia.Runserver.Lifecycle.Graceful.{IsSoundPolicies, Reach-IsSound}

-- A Run whose channel is closed can return.
abbrev Returns : Setup → Runner → Type 0
Returns c s = (t : Runner) × Run.Reach c s t × HasReturned t

module _ (c : Setup) where
  Returns-Step : (s t : Runner) → Run.Step c s t → Returns c t → Returns c s
  Returns-Step s t st (u, reach, done) = (u, Drain.Reach-trans (Run.later Run.here st) reach, done)

  closing-Returns :
      (left : ℕ) (r : Option Error) (s : Runner) → s.phase ≡ closing left r → Returns c s
  closing-Returns zero r s e =
      (record s { phase = returned r }, Run.later Run.here (Run.return r e), (r, refl))
  closing-Returns (suc left) r s e =
      Returns-Step s (record s { phase = closing left r }) (Run.shut_down left r e)
        (closing-Returns left r (record s { phase = closing left r }) refl)

  stopped-Returns : (s : Runner) (x : Phase) → s.phase ≡ x → s.stopped ≡ true → Returns c s
  stopped-Returns s syncing e h =
      Returns-Step s _ (Run.not_synced e h) (closing-Returns c.queues _ _ refl)
  stopped-Returns s running e h =
      Returns-Step s _ (Run.stopping e h) (closing-Returns c.queues none _ refl)
  stopped-Returns s (closing left r) e h = closing-Returns left r s e
  stopped-Returns s (returned r) e h = (s, Run.here, (r, e))

  Step-stopped : {s t : Runner} → Run.Step c s t → s.stopped ≡ true → t.stopped ≡ true
  Step-stopped Run.stop h = refl
  Step-stopped (Run.synced e) h = h
  Step-stopped (Run.not_synced e k) h = h
  Step-stopped (Run.stopping e k) h = h
  Step-stopped (Run.shut_down left r e) h = h
  Step-stopped (Run.return r e) h = h
  Step-stopped (Run.move before behind w e m) h = h

  Reach-stopped : {s t : Runner} → Run.Reach c s t → s.stopped ≡ true → t.stopped ≡ true
  Reach-stopped Run.here h = h
  Reach-stopped (Run.later r st) h = Step-stopped st (Reach-stopped r h)

Reach-trans : {p q r : Process} → Reach p q → Reach q r → Reach p r
Reach-trans r here = r
Reach-trans r (later q st) = later (Reach-trans r q) st

-- The steps of a reconciler are steps of the program.
config-Reach :
    (p : Process) {t : Runner}
    → p.outcome ≡ alive
    → p.config.stopped ≡ true
    → Run.Reach (config_setup threads) p.config t
    → Reach p (record p { config = t })
config-Reach p a h Run.here = here
config-Reach p {t = t} a h (Run.later r st) =
    let before = Reach-stopped (config_setup threads) r h in
    later (config-Reach p a h r)
      (config_step t a st (Step-stopped (config_setup threads) st before ∙ sym before))

policies-Reach :
    (p : Process) (s : Runner) {t : Runner}
    → p.outcome ≡ alive
    → s.stopped ≡ true
    → Run.Reach (policy_setup threads) s t
    → Reach (record p { policies = some s }) (record p { policies = some t })
policies-Reach p s a h Run.here = here
policies-Reach p s {t = t} a h (Run.later {t = u} r st) =
    let before = Reach-stopped (policy_setup threads) r h in
    later (policies-Reach p s a h r)
      (policies_step u t a refl st (Step-stopped (policy_setup threads) st before ∙ sym before))

shutdown-Reach :
    (p : Process) (x : Shutdown)
    → p.outcome ≡ alive
    → p.cancelled ≡ true
    → p.shutdown ≡ x
    → Reach p (record p { shutdown = shut })
shutdown-Reach p waiting a c e = later (later here (begin_shutdown a c e)) (end_shutdown a refl)
shutdown-Reach p shutting a c e = later here (end_shutdown a e)
shutdown-Reach p shut a c e = subst (Reach p) (ap (λ x. record p { shutdown = x }) e) here

server-Reach :
    (p : Process) (x : Server)
    → p.outcome ≡ alive
    → p.shutdown ≡ shut
    → p.server ≡ x
    → Reach p (record p { server = served })
server-Reach p serving a h e = later here (server_closed a e (λ k. cc (sym h ∙ k)))
server-Reach p served a h e = subst (Reach p) (ap (λ x. record p { server = x }) e) here

-- The second reconciler returns, if it is there.
policies-HaveReturned :
    (p : Process) (ps : Option Runner)
    → p.outcome ≡ alive
    → p.policies ≡ ps
    → IsSoundPolicies true ps
    → (rs : Option Runner) × Reach p (record p { policies = rs }) × HaveReturned rs
policies-HaveReturned p none a e h =
    (none, subst (Reach p) (ap (λ x. record p { policies = x }) e) here, tt)
policies-HaveReturned p (some s) a e h =
    let (t, reach, done) = stopped-Returns (policy_setup threads) s s.phase refl h.0 in
    (
      some t,
      subst (λ q. Reach q (record p { policies = some t }))
          (sym (ap (λ x. record p { policies = x }) e)) (policies-Reach p s a h.0 reach),
      done,
    )

-- From every point after the first signal at which the program has not ended or crashed, however far the goroutines have come and whatever the schedule
-- was, their own steps can bring the program to its end, without a second signal.
pub Reach-finishes :
    (enable_controller : Bool) (p : Process)
    → Reach (started enable_controller) p
    → p.outcome ≡ alive
    → p.signals ≡ 1
    → (q : Process) × Reach p q × (q.outcome ≡ finished) × (q.signals ≡ 1)
Reach-finishes b p reach a one =
    let s = Reach-IsSound b reach in
    let closed : p.cancelled ≡ true = s.cancels ∙ rw one refl in
    let p1 : Process = record p { shutdown = shut } in
    let p2 : Process = record p1 { server = served } in
    let (t, config_reach, config_done) =
      stopped-Returns (config_setup threads) p.config p.config.phase refl
        (s.config_stop ∙ closed) in
    let p3 : Process = record p2 { config = t } in
    let (rs, policies_reach, policies_done) =
      policies-HaveReturned p3 p.policies a refl
        (subst (λ c. IsSoundPolicies c p.policies) closed s.policies_sound) in
    let p4 : Process = record p3 { policies = rs } in
    let down =
      Reach-trans (shutdown-Reach p p.shutdown a closed refl)
        (server-Reach p1 p.server a refl refl) in
    let ran = Reach-trans down (config-Reach p2 a (s.config_stop ∙ closed) config_reach) in
    let all_done = Reach-trans ran policies_reach in
    (
      record p4 { outcome = finished },
      later all_done (join a closed refl refl config_done policies_done),
      refl,
      one,
    )
