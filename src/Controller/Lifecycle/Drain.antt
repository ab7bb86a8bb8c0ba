-- ===== src/Controller/Lifecycle/Drain.antt =====
-- How the workers of a reconciler come to their end.
use mathlib.Core.List.{append-nil, append_assoc}
use mathlib.Core.Path.{subst}
use karydia.Controller.Lifecycle.Accounts.{count, held, total}
use karydia.Controller.Lifecycle.Orderly.{Reach-IsOrderly}
use karydia.Controller.Work.Settled.{dones}
use karydia.Common.{
  arith, ℕ, Bool, true, ◌≡◌, refl, sym, ◌∙◌, ap, Option, none, some, List, [], ◌∷◌, ◌++◌, All,
}
use karydia.Common.Run.{Error}
use karydia.Controller.Work.{Item, key, other, QueueAction, add_rate_limited, forget, done}
use karydia.Controller.Lifecycle.{
  returned, is_down, Position, starting, getting, holding, settled, pausing, ended, Worker, Runner,
  initial, Effect, Move, settle_call, give_up, get_shutdown, settle, finish, stop_pausing, Setup,
  move, Reach, here, later,
}

pub Reach-trans : {c : Setup} {s t u : Runner} → Reach c s t → Reach c t u → Reach c s u
Reach-trans r here = r
Reach-trans r (later q st) = later (Reach-trans r q) st

-- What the queue is still told of a worker that stands there, if its handler returns by `outcome`.
abbrev pub calls_left : (Item → Option Error) → Position → List QueueAction
calls_left outcome (holding other) = forget other ∷ done other ∷ []
calls_left outcome (holding (key k)) =
    elim (outcome (key k)) [ none ↦ forget (key k) | some e ↦ add_rate_limited k ]
    ∷ done (key k)
    ∷ []
calls_left outcome (settled item) = done item ∷ []
calls_left outcome starting = []
calls_left outcome getting = []
calls_left outcome pausing = []
calls_left outcome ended = []

abbrev pub all_calls_left : (Item → Option Error) → List Worker → List QueueAction
all_calls_left outcome [] = []
all_calls_left outcome (w ∷ ws) = calls_left outcome w.position ++ all_calls_left outcome ws

-- A later point at which no further item was taken, at which the workers are those given, and up to which
-- the queues were told what is added.
pub record Leads (c : Setup) (s : Runner) (ws : List Worker) (added : List QueueAction)
    : Type 0 where
  pub last : Runner
  pub reach : Reach c s last
  pub workers : last.workers ≡ ws
  pub stopped : last.stopped ≡ s.stopped
  pub phase : last.phase ≡ s.phase
  pub taken : last.taken ≡ s.taken
  pub calls : last.calls ≡ s.calls ++ added

module _ (c : Setup) (outcome : Item → Option Error) where
  Leads-here : (s : Runner) (ws : List Worker) → s.workers ≡ ws → Leads c s ws []
  Leads-here s ws e = record {
    last = s;
    reach = here;
    workers = e;
    stopped = refl;
    phase = refl;
    taken = refl;
    calls = sym (append-nil s.calls);
  }

  Leads-trans :
      (s : Runner) (ws vs : List Worker) (xs ys : List QueueAction) (l : Leads c s ws xs)
      → Leads c l.last vs ys
      → Leads c s vs (xs ++ ys)
  Leads-trans s ws vs xs ys l k = record {
    last = k.last;
    reach = Reach-trans l.reach k.reach;
    workers = k.workers;
    stopped = k.stopped ∙ l.stopped;
    phase = k.phase ∙ l.phase;
    taken = k.taken ∙ l.taken;
    calls = k.calls ∙ ap (λ zs. zs ++ ys) l.calls ∙ append_assoc s.calls xs ys;
  }

  -- One move with which no item is taken.
  Leads-move :
      (s : Runner) (before behind : List Worker) (w : Worker) (p : Position) (e : Effect)
      → s.workers ≡ before ++ w ∷ behind
      → Move s.stopped (is_down s.phase w.queue) w.position p e
      → e.taken ≡ []
      → Leads c s (before ++ record w { position = p } ∷ behind) e.calls
  Leads-move s before behind w p e at m idle = record {
    last = _;
    reach = later here (move before behind w at m);
    workers = refl;
    stopped = refl;
    phase = refl;
    taken = ap (λ xs. s.taken ++ xs) idle ∙ append-nil s.taken;
    calls = refl;
  }

  -- A worker that stands there, behind a Run that has returned, comes to its end by its own moves.
  abbrev Ends : Position → Type 0
  Ends p =
      (s : Runner) (r : Option Error) (before behind : List Worker) (queue : ℕ)
      → s.stopped ≡ true
      → s.phase ≡ returned r
      → s.workers ≡ before ++ record { queue = queue; position = p } ∷ behind
      → Leads c s (before ++ record { queue = queue; position = ended } ∷ behind)
          (calls_left outcome p)

  Ends-move :
      (p p' : Position) (e : Effect)
      → e.taken ≡ []
      → ((stopped down : Bool) → stopped ≡ true → down ≡ true → Move stopped down p p' e)
      → e.calls ++ calls_left outcome p' ≡ calls_left outcome p
      → Ends p'
      → Ends p
  Ends-move p p' e idle m told rest s r before behind queue hs hp at =
      let w : Worker = record { queue = queue; position = p } in
      let down = ap (λ x. is_down x queue) hp in
      let first =
        Leads-move s before behind w p' e at (m s.stopped (is_down s.phase queue) hs down) idle in
      let last_workers = before ++ record { queue = queue; position = ended } ∷ behind in
      subst (Leads c s last_workers) told (
        Leads-trans s (before ++ record { queue = queue; position = p' } ∷ behind) last_workers
          e.calls (calls_left outcome p') first
          (rest first.last r before behind queue (first.stopped ∙ hs) (first.phase ∙ hp)
            first.workers))

  Ends-ended : Ends ended
  Ends-ended s r before behind queue hs hp at = Leads-here s _ at

  Ends-pausing : Ends pausing
  Ends-pausing = Ends-move pausing ended _ refl (λ a b h k. stop_pausing h) refl Ends-ended

  Ends-getting : Ends getting
  Ends-getting = Ends-move getting pausing _ refl (λ a b h k. get_shutdown k) refl Ends-pausing

  Ends-settled : (i : Item) → Ends (settled i)
  Ends-settled i = Ends-move (settled i) getting _ refl (λ a b h k. finish i) refl Ends-getting

  settle_call-left :
      (i : Item)
      → settle_call i (outcome i) ∷ calls_left outcome (settled i) ≡ calls_left outcome (holding i)
  unfolding settle_call
  settle_call-left other = refl
  settle_call-left (key k) = by_outcome (outcome (key k))
    where
      by_outcome :
          (e : Option Error)
          → settle_call (key k) e ∷ done (key k) ∷ []
            ≡ (elim e [ none ↦ forget (key k) | some f ↦ add_rate_limited k ]) ∷ done (key k) ∷ []
      by_outcome none = refl
      by_outcome (some e) = refl

  Ends-holding : (i : Item) → Ends (holding i)
  Ends-holding i =
      Ends-move (holding i) (settled i) _ refl (λ a b h k. settle i (outcome i))
        (settle_call-left i) (Ends-settled i)

  all-Ends : (p : Position) → Ends p
  all-Ends ended = Ends-ended
  all-Ends pausing = Ends-pausing
  all-Ends getting = Ends-getting
  all-Ends (settled i) = Ends-settled i
  all-Ends starting = Ends-move starting ended _ refl (λ a b h k. give_up h) refl Ends-ended
  all-Ends (holding i) = Ends-holding i

  abbrev pub AreEnded : List Worker → Type 0
  AreEnded = All (λ w. w.position ≡ ended)

  abbrev end_all : List Worker → List Worker
  end_all [] = []
  end_all (w ∷ ws) = record w { position = ended } ∷ end_all ws

  end_all-AreEnded : (ws : List Worker) → AreEnded (end_all ws)
  end_all-AreEnded [] = tt
  end_all-AreEnded (w ∷ ws) = (refl, end_all-AreEnded ws)

  -- The workers come to their ends one by one.
  Leads-all :
      (before ws : List Worker) (s : Runner) (r : Option Error)
      → s.stopped ≡ true
      → s.phase ≡ returned r
      → s.workers ≡ before ++ ws
      → Leads c s (before ++ end_all ws) (all_calls_left outcome ws)
  Leads-all before [] s r hs hp at = Leads-here s _ at
  Leads-all before (w ∷ ws) s r hs hp at =
      let ended_w : Worker = record w { position = ended } in
      let first = all-Ends w.position s r before ws w.queue hs hp at in
      let regroup = append_assoc before (ended_w ∷ []) ws in
      let rest =
        Leads-all (before ++ ended_w ∷ []) ws first.last r (first.stopped ∙ hs) (first.phase ∙ hp)
          (first.workers ∙ sym regroup) in
      let rest_calls = all_calls_left outcome ws in
      Leads-trans s (before ++ ended_w ∷ ws) (before ++ ended_w ∷ end_all ws)
        (calls_left outcome w.position) rest_calls first
        (subst (λ vs. Leads c first.last vs rest_calls)
          (append_assoc before (ended_w ∷ []) (end_all ws)) rest)

  total-AreEnded :
      (f : Position → ℕ) (ws : List Worker) → f ended ≡ 0 → AreEnded ws → total f ws ≡ 0
  total-AreEnded f [] e h = refl
  total-AreEnded f (w ∷ ws) e h =
      let rest = total-AreEnded f ws e h.1 in let first = ap f h.0 in omega arith

  -- After a Run has returned, with workers wherever they are, and for any results `outcome` of the handlers,
  -- the workers can come to their ends by their own moves with no further item, in such a way that, worker
  -- by worker, an item in a handler is forgotten or put back as `outcome` says and is done, and an item
  -- behind its handler is done, and the queues are told nothing else. Then Done was called for each item
  -- that was ever taken, once.
  pub Reach-AreEnded :
      (s : Runner) (r : Option Error)
      → Reach c initial s
      → s.phase ≡ returned r
      → (t : Runner) × Reach c s t
        × (t.phase ≡ returned r)
        × AreEnded t.workers
        × (t.taken ≡ s.taken)
        × (t.calls ≡ s.calls ++ all_calls_left outcome s.workers)
        × ((q : Item → Bool) → count q t.taken ≡ count q (dones t.calls))
  Reach-AreEnded s r reach e =
      let o = Reach-IsOrderly reach in
      let l = Leads-all [] s.workers s r (o.stop_first (rw e refl)) e refl in
      let are_ended : AreEnded l.last.workers = rw l.workers (end_all-AreEnded s.workers) in
      (
        l.last,
        l.reach,
        l.phase ∙ e,
        are_ended,
        l.taken,
        l.calls,
        λ q.
            let accounted = (Reach-IsOrderly (Reach-trans reach l.reach)).accounted q in
            let none_held = total-AreEnded (held q) l.last.workers refl are_ended in omega arith,
      )
