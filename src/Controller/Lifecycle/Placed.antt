-- ===== src/Controller/Lifecycle/Placed.antt =====
-- Where workers may stand, and the invariant of a reconciler that runs.
use karydia.Common.{
  ℕ, zero, suc, ◌+◌, Bool, true, false, ◌≡◌, refl, ap, none, some, List, [], ◌∷◌, arith, All,
  All-append,
}
use karydia.Controller.Work.{Item}
use karydia.Controller.Work.Settled.{dones}
use karydia.Controller.Lifecycle.{
  Phase, syncing, running, closing, returned, is_down, Position, starting, getting, holding,
  settled, pausing, ended, Worker, Runner, Effect, Move, begin, give_up, get, get_shutdown, settle,
  finish, wake, stop_pausing, round, launch, initial,
}
use karydia.Controller.Lifecycle.Accounts.{count, settlements, held, owed, total}

-- The workers were launched.
abbrev pub has_started : Phase → Bool
has_started syncing = false
has_started running = true
has_started (closing left none) = true
has_started (closing left (some e)) = false
has_started (returned none) = true
has_started (returned (some e)) = false

abbrev pub is_closing : Phase → Bool
is_closing (closing left r) = true
is_closing (returned r) = true
is_closing _ = false

-- Why a worker stands where it does.
abbrev pub IsPlaced : Bool → Bool → Position → Type 0
IsPlaced stopped down ended = stopped ≡ true
IsPlaced stopped down pausing = down ≡ true
IsPlaced stopped down _ = Unit

abbrev pub ArePlaced : Bool → Phase → List Worker → Type 0
ArePlaced stopped phase = All (λ w. IsPlaced stopped (is_down phase w.queue) w.position)

pub record IsOrderly (s : Runner) : Type 0 where
  -- Each item that Get returned is held by one worker, or Done was called for it once.
  pub accounted :
      (q : Item → Bool) → count q s.taken ≡ count q (dones s.calls) + total (held q) s.workers
  -- Each item is forgotten or put back once, before its Done.
  pub settled_once :
      (q : Item → Bool) → settlements q s.calls ≡ count q (dones s.calls) + total (owed q) s.workers
  -- Without synchronised caches nothing is done.
  pub idle : has_started s.phase ≡ false → (s.workers ≡ []) × (s.taken ≡ []) × (s.calls ≡ [])
  pub stop_first : is_closing s.phase ≡ true → s.stopped ≡ true
  pub placed : ArePlaced s.stopped s.phase s.workers

pub initial-IsOrderly : IsOrderly initial
initial-IsOrderly = record {
  accounted = λ q. refl;
  settled_once = λ q. refl;
  idle = λ h. (refl, refl, refl);
  stop_first = λ h. cc h;
  placed = tt;
}

pub All-map {ℓ κ ι} :
    {A : Type ℓ} {P : A → Type κ} {Q : A → Type ι} (xs : List A)
    → ((x : A) → P x → Q x)
    → All P xs
    → All Q xs
All-map [] f h = tt
All-map (x ∷ xs) f h = (f x h.0, All-map xs f h.1)

abbrev pub AreStarting : List Worker → Type 0
AreStarting = All (λ w. w.position ≡ starting)

pub launch-AreStarting : (n queues : ℕ) → AreStarting (launch n queues)
unfolding launch
launch-AreStarting zero queues = tt
launch-AreStarting (suc n) queues =
    All-append (λ w. w.position ≡ starting) (round queues) (launch n queues)
      (round-AreStarting queues) (launch-AreStarting n queues)
  where
    round-AreStarting : (n : ℕ) → AreStarting (round n)
    round-AreStarting zero = tt
    round-AreStarting (suc n) =
        All-append (λ w. w.position ≡ starting) (round n)
          (record { queue = n; position = starting } ∷ []) (round-AreStarting n) (refl, tt)

pub total-AreStarting :
    (f : Position → ℕ) (ws : List Worker) → f starting ≡ 0 → AreStarting ws → total f ws ≡ 0
total-AreStarting f [] e h = refl
total-AreStarting f (w ∷ ws) e h =
    let rest = total-AreStarting f ws e h.1 in let first = ap f h.0 in omega arith

pub starting-IsPlaced :
    (stopped down : Bool) (p : Position) → p ≡ starting → IsPlaced stopped down p
starting-IsPlaced stopped down ended e = absurd (cc e)
starting-IsPlaced stopped down pausing e = absurd (cc e)
starting-IsPlaced stopped down starting e = tt
starting-IsPlaced stopped down getting e = tt
starting-IsPlaced stopped down (holding i) e = tt
starting-IsPlaced stopped down (settled i) e = tt

-- A worker stays placed when the channel is closed and when more queues are shut down.
IsPlaced-mono :
    (stopped stopped' down down' : Bool) (p : Position)
    → (stopped ≡ true → stopped' ≡ true)
    → (down ≡ true → down' ≡ true)
    → IsPlaced stopped down p
    → IsPlaced stopped' down' p
IsPlaced-mono s s' d d' ended f g h = f h
IsPlaced-mono s s' d d' pausing f g h = g h
IsPlaced-mono s s' d d' starting f g h = tt
IsPlaced-mono s s' d d' getting f g h = tt
IsPlaced-mono s s' d d' (holding i) f g h = tt
IsPlaced-mono s s' d d' (settled i) f g h = tt

pub Move-IsPlaced :
    {stopped down : Bool} {p p' : Position} {e : Effect}
    → Move stopped down p p' e
    → IsPlaced stopped down p'
Move-IsPlaced (begin h) = tt
Move-IsPlaced (give_up h) = h
Move-IsPlaced (get item) = tt
Move-IsPlaced (get_shutdown h) = h
Move-IsPlaced (settle item e) = tt
Move-IsPlaced (finish item) = tt
Move-IsPlaced wake = tt
Move-IsPlaced (stop_pausing h) = h

-- The workers behind a phase that shuts down at least as much.
pub ArePlaced-mono :
    (stopped stopped' : Bool) (phase phase' : Phase) (ws : List Worker)
    → (stopped ≡ true → stopped' ≡ true)
    → ((queue : ℕ) → is_down phase queue ≡ true → is_down phase' queue ≡ true)
    → ArePlaced stopped phase ws
    → ArePlaced stopped' phase' ws
ArePlaced-mono stopped stopped' phase phase' ws f g h =
    All-map ws
      (λ w k.
        IsPlaced-mono stopped stopped' (is_down phase w.queue) (is_down phase' w.queue) w.position f
          (g w.queue) k)
      h
