-- ===== src/Controller/Lifecycle/Accounts.antt =====
-- Counts over the items, the calls and the workers of a reconciler, and what a move does to them.
use karydia.Common.{
  ℕ, ◌+◌, Bool, ◌≡◌, refl, ap, none, some, List, [], ◌∷◌, ◌++◌, arith, if◌then◌else◌,
}
use karydia.Controller.Work.{Item, key, other, QueueAction, add, add_rate_limited, forget, done}
use karydia.Controller.Work.Settled.{dones}
use karydia.Controller.Lifecycle.{
  Position, holding, settled, Worker, settle_call, Effect, Move, begin, give_up, get, get_shutdown,
  settle, finish, wake, stop_pausing,
}

abbrev pub count : (Item → Bool) → List Item → ℕ
count q [] = 0
count q (x ∷ xs) = (if q x then 1 else 0) + count q xs

pub count-append :
    (q : Item → Bool) (xs ys : List Item) → count q (xs ++ ys) ≡ count q xs + count q ys
count-append q [] ys = omega arith
count-append q (x ∷ xs) ys = omega (arith, count-append q xs ys)

pub dones-append : (xs ys : List QueueAction) → dones (xs ++ ys) ≡ dones xs ++ dones ys
dones-append [] ys = refl
dones-append (add k ∷ xs) ys = dones-append xs ys
dones-append (add_rate_limited k ∷ xs) ys = dones-append xs ys
dones-append (forget i ∷ xs) ys = dones-append xs ys
dones-append (done i ∷ xs) ys = ap (λ is. i ∷ is) (dones-append xs ys)

-- How often a wanted item is forgotten or put back.
abbrev pub settlements : (Item → Bool) → List QueueAction → ℕ
settlements q [] = 0
settlements q (forget i ∷ rest) = (if q i then 1 else 0) + settlements q rest
settlements q (add_rate_limited k ∷ rest) = (if q (key k) then 1 else 0) + settlements q rest
settlements q (_ ∷ rest) = settlements q rest

pub settlements-append :
    (q : Item → Bool) (xs ys : List QueueAction)
    → settlements q (xs ++ ys) ≡ settlements q xs + settlements q ys
settlements-append q [] ys = omega arith
settlements-append q (add k ∷ xs) ys = settlements-append q xs ys
settlements-append q (add_rate_limited k ∷ xs) ys = omega (arith, settlements-append q xs ys)
settlements-append q (forget i ∷ xs) ys = omega (arith, settlements-append q xs ys)
settlements-append q (done i ∷ xs) ys = settlements-append q xs ys

-- What a worker holds that is wanted, and what it has settled with no call of Done.
abbrev pub held : (Item → Bool) → Position → ℕ
held q (holding i) = if q i then 1 else 0
held q (settled i) = if q i then 1 else 0
held q _ = 0

abbrev pub owed : (Item → Bool) → Position → ℕ
owed q (settled i) = if q i then 1 else 0
owed q _ = 0

abbrev pub total : (Position → ℕ) → List Worker → ℕ
total f [] = 0
total f (w ∷ ws) = f w.position + total f ws

pub total-append :
    (f : Position → ℕ) (xs ys : List Worker) → total f (xs ++ ys) ≡ total f xs + total f ys
total-append f [] ys = omega arith
total-append f (x ∷ xs) ys = omega (arith, total-append f xs ys)

pub Move-held :
    {stopped down : Bool} {p p' : Position} {e : Effect} (q : Item → Bool)
    → Move stopped down p p' e
    → count q e.taken + held q p ≡ count q (dones e.calls) + held q p'
unfolding settle_call
Move-held q (begin h) = refl
Move-held q (give_up h) = refl
Move-held q (get item) = omega arith
Move-held q (get_shutdown h) = refl
Move-held q (settle other e) = refl
Move-held q (settle (key k) none) = refl
Move-held q (settle (key k) (some e)) = refl
Move-held q (finish item) = omega arith
Move-held q wake = refl
Move-held q (stop_pausing h) = refl

pub Move-owed :
    {stopped down : Bool} {p p' : Position} {e : Effect} (q : Item → Bool)
    → Move stopped down p p' e
    → settlements q e.calls + owed q p ≡ count q (dones e.calls) + owed q p'
unfolding settle_call
Move-owed q (begin h) = refl
Move-owed q (give_up h) = refl
Move-owed q (get item) = refl
Move-owed q (get_shutdown h) = refl
Move-owed q (settle other e) = omega arith
Move-owed q (settle (key k) none) = omega arith
Move-owed q (settle (key k) (some e)) = omega arith
Move-owed q (finish item) = omega arith
Move-owed q wake = refl
Move-owed q (stop_pausing h) = refl
