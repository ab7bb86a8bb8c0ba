-- ===== src/Client/Loops.antt =====
-- What the loops of Start and WaitForCacheSync do to one type.
use mathlib.Core.Option
use karydia.Common.{
  ◌+◌, ℕ, String, Bool, true, not, ◌||◌, ◌≡◌, none, List, [], ◌∷◌, ◌++◌, arith, ◌==◌, eq_iff,
  is_nil, if◌then◌else◌,
}
use karydia.Common.Dict.{Dict, lookup, lookup-insert}
use karydia.Client.Informers.{or_false, start_one, start_each, synced_each}

module _ {Informer : Type 0} where
  -- How often informers of a type are run.
  unfoldable pub starts : String → List (String × Informer) → ℕ
  starts t [] = 0
  starts t ((u, i) ∷ rest) = (if u == t then 1 else 0) + starts t rest

  pub starts-append :
      (t : String) (xs ys : List (String × Informer))
      → starts t (xs ++ ys) ≡ starts t xs + starts t ys
  unfolding starts
  starts-append t [] ys = omega arith
  starts-append t ((u, i) ∷ xs) ys = let rest = starts-append t xs ys in omega arith

-- One for a type that is started, and none for another.
abbrev pub flag : String → Dict Bool → ℕ
flag t started = if or_false (lookup t started) then 1 else 0

module _ {Informer : Type 0} where
  start_one-flag :
      (t u : String) (i : Informer) (s : Dict Bool)
      → let (later, launched) = start_one u i s in
        (starts t launched + flag t s ≡ flag t later)
        × (or_false (lookup t later) ≡ (or_false (lookup t s) || u == t))
  unfolding start_one starts
  start_one-flag t u i s = let after = lookup-insert u t true s in ground (arith, eq_iff u t)

  pub start_each-flag :
      (t : String) (infs : Dict Informer) (s : Dict Bool)
      → let (later, launched) = start_each infs s in
        (starts t launched + flag t s ≡ flag t later)
        × (or_false (lookup t later) ≡ (or_false (lookup t s) || not (is_nil (lookup t infs))))
  unfolding start_each starts lookup
  start_each-flag t [] s = ground arith
  start_each-flag t ((u, i) ∷ infs) s =
      let (one, one_flag) = start_one-flag t u i s in
      let (rest, rest_flag) = start_each-flag t infs (start_one u i s).0 in
      let split = starts-append t (start_one u i s).1 (start_each infs (start_one u i s).0).1 in
      ground arith

  pub synced_each-lookup :
      (t : String) (wait : Informer → Bool) (infs : Dict Informer) (s : Dict Bool)
      → lookup t (synced_each wait infs s)
        ≡ (if or_false (lookup t s) then Option.map wait (lookup t infs) else none)
  unfolding synced_each lookup
  synced_each-lookup t wait [] s = ground arith
  synced_each-lookup t wait ((u, i) ∷ infs) s =
      let rest = synced_each-lookup t wait infs s in
      let added = lookup-insert u t (wait i) (synced_each wait infs s) in ground (arith, eq_iff u t)
