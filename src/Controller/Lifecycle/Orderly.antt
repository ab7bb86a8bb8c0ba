-- ===== src/Controller/Lifecycle/Orderly.antt =====
-- The invariant of a reconciler that runs, at every point of its run.
use mathlib.Core.Path.{subst}
use karydia.Common.{
  leb, ℕ, suc, ◌+◌, true, false, ◌≡◌, refl, sym, ◌∙◌, ap, Option, none, some, List, [], ◌∷◌, ◌++◌,
  arith, All,
}
use karydia.Common.Run.{Error}
use karydia.Controller.Work.Settled.{dones}
use karydia.Controller.Lifecycle.{
  closing, returned, is_down, Position, Worker, Runner, Setup, launch, initial, Step, stop, synced,
  not_synced, stopping, shut_down, return, move, Reach, here, later,
}
use karydia.Controller.Lifecycle.Accounts.{
  count, held, owed, total, count-append, dones-append, settlements-append, total-append, Move-held,
  Move-owed,
}
use karydia.Controller.Lifecycle.Placed.{
  has_started, IsPlaced, IsOrderly, initial-IsOrderly, launch-AreStarting, total-AreStarting,
  starting-IsPlaced, Move-IsPlaced, ArePlaced-mono, All-map,
}

started-closing :
    (n m : ℕ) (r : Option Error) → has_started (closing n r) ≡ has_started (closing m r)
started-closing n m none = refl
started-closing n m (some e) = refl

started-returned : (n : ℕ) (r : Option Error) → has_started (closing n r) ≡ has_started (returned r)
started-returned n none = refl
started-returned n (some e) = refl

down_mono : (left q : ℕ) → leb (suc left) q ≡ true → leb left q ≡ true
down_mono left q h = ground arith

-- A sum over the workers, one of which moves.
total-move :
    (f : Position → ℕ) (before behind ws : List Worker) (w w' : Worker)
    → ws ≡ before ++ w ∷ behind
    → total f (before ++ w' ∷ behind) + f w.position ≡ total f ws + f w'.position
total-move f before behind ws w w' e =
    let old = ap (total f) e ∙ total-append f before (w ∷ behind) in
    let new = total-append f before (w' ∷ behind) in omega arith

All-move :
    {A : Type 0} (P : A → Type 0) (before behind xs : List A) (x x' : A)
    → xs ≡ before ++ x ∷ behind
    → P x'
    → All P xs
    → All P (before ++ x' ∷ behind)
All-move {A = A} P before behind xs x x' e p h = insert before (subst (All P) e h)
  where
    insert : (ys : List A) → All P (ys ++ x ∷ behind) → All P (ys ++ x' ∷ behind)
    insert [] k = (p, k.1)
    insert (y ∷ ys) k = (k.0, insert ys k.1)

no-workers : (before behind : List Worker) (w : Worker) → before ++ w ∷ behind ≡ [] → ⊥
no-workers [] behind w e = cc e
no-workers (x ∷ before) behind w e = cc e

Step-IsOrderly : {c : Setup} {s t : Runner} → Step c s t → IsOrderly s → IsOrderly t
Step-IsOrderly {s = s} stop o = record {
  accounted = o.accounted;
  settled_once = o.settled_once;
  idle = o.idle;
  stop_first = λ h. refl;
  placed = ArePlaced-mono s.stopped true s.phase s.phase s.workers (λ h. refl) (λ q h. h) o.placed;
}
Step-IsOrderly {c = c} {s = s} (synced e) o =
    let (none_work, none_taken, none_called) = o.idle (rw e refl) in
    let ws = launch c.threadiness c.queues in
    record {
      accounted = λ q.
          rw
            (
              none_taken,
              none_called,
              total-AreStarting (held q) ws refl (launch-AreStarting c.threadiness c.queues),
            )
            refl;
      settled_once = λ q.
          rw
            (
              none_called,
              total-AreStarting (owed q) ws refl (launch-AreStarting c.threadiness c.queues),
            )
            refl;
      idle = λ h. absurd (cc h);
      stop_first = λ h. absurd (cc h);
      placed =
          All-map ws (λ w k. starting-IsPlaced s.stopped false w.position k)
            (launch-AreStarting c.threadiness c.queues);
    }
Step-IsOrderly {s = s} (not_synced e h) o =
    let (none_work, none_taken, none_called) = o.idle (rw e refl) in
    record {
      accounted = o.accounted;
      settled_once = o.settled_once;
      idle = λ _. (none_work, none_taken, none_called);
      stop_first = λ _. h;
      placed = rw none_work tt;
    }
Step-IsOrderly {c = c} {s = s} (stopping e h) o = record {
  accounted = o.accounted;
  settled_once = o.settled_once;
  idle = λ k. absurd (cc k);
  stop_first = λ _. h;
  placed =
      ArePlaced-mono s.stopped s.stopped s.phase (closing c.queues none) s.workers (λ k. k)
        (λ q k. absurd (cc (sym (ap (λ x. is_down x q) e) ∙ k))) o.placed;
}
Step-IsOrderly {s = s} (shut_down left r e) o = record {
  accounted = o.accounted;
  settled_once = o.settled_once;
  idle = λ h. o.idle (ap has_started e ∙ started-closing (suc left) left r ∙ h);
  stop_first = λ _. o.stop_first (rw e refl);
  placed =
      ArePlaced-mono s.stopped s.stopped s.phase (closing left r) s.workers (λ k. k)
        (λ q k. down_mono left q (sym (ap (λ x. is_down x q) e) ∙ k)) o.placed;
}
Step-IsOrderly {s = s} (return r e) o = record {
  accounted = o.accounted;
  settled_once = o.settled_once;
  idle = λ h. o.idle (ap has_started e ∙ started-returned 0 r ∙ h);
  stop_first = λ _. o.stop_first (rw e refl);
  placed =
      ArePlaced-mono s.stopped s.stopped s.phase (returned r) s.workers (λ k. k) (λ q k. refl)
        o.placed;
}
Step-IsOrderly {s = s} (move before behind w {p} {e} at m) o =
    let w' = record w { position = p } in
    record {
      accounted = λ q.
          let ih = o.accounted q in
          let moved = Move-held q m in
          let sum = total-move (held q) before behind s.workers w w' at in
          let more = count-append q s.taken e.taken in
          let finished =
            ap (count q) (dones-append s.calls e.calls)
            ∙ count-append q (dones s.calls) (dones e.calls) in
          omega arith;
      settled_once = λ q.
          let ih = o.settled_once q in
          let moved = Move-owed q m in
          let sum = total-move (owed q) before behind s.workers w w' at in
          let more = settlements-append q s.calls e.calls in
          let finished =
            ap (count q) (dones-append s.calls e.calls)
            ∙ count-append q (dones s.calls) (dones e.calls) in
          omega arith;
      idle = λ h. absurd (no-workers before behind w (sym at ∙ (o.idle h).0));
      stop_first = o.stop_first;
      placed =
          All-move (λ v. IsPlaced s.stopped (is_down s.phase v.queue) v.position) before behind
            s.workers w w' at (Move-IsPlaced m) o.placed;
    }

-- At every point of a run of either reconciler, whatever its numbers of queues and threads and however the
-- workers interleave: each item that Get returned is held by one worker or Done was called for it once;
-- before its Done it is forgotten or put back once; if the caches were not synchronised, no item was taken
-- and no call made; the queues are shut down and Run returns only after the channel was closed; a worker
-- pauses only when its queue is shut down and ends only when the channel is closed.
pub Reach-IsOrderly : {c : Setup} {s : Runner} → Reach c initial s → IsOrderly s
Reach-IsOrderly here = initial-IsOrderly
Reach-IsOrderly (later r st) = Step-IsOrderly st (Reach-IsOrderly r)
