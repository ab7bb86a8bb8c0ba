-- ===== src/Client/Listers.antt =====
-- pkg/client/listers/karydia/v1alpha1: the listers of the two kinds, which are the same code but for the type
-- and the resource. An object of the indexer is of the kind, or the assertion of its type panics.
use karydia.Common.{String, Option, none, some, List, [], ◌∷◌, ◌++◌, ◌≡◌, sym, ap, ◌∙◌, map, refl}
use mathlib.Core.List.{append-nil, append_assoc}
use karydia.Common.Run.{Error, Result, ok, err, Run, returns, panics, ◌>>=◌}

-- cache.Indexer with cache.ListAll, the assertion of the kind, and errors.NewNotFound of the resource
pub record Indexer (Object Kind Selector : Type 0) : Type 0 where
  pub get_by_key : String → Result (Option Object)
  pub list_all : Selector → List Object × Option Error
  pub as_kind : Object → Option Kind
  pub new_not_found : String → Error

module _ {Object Kind Selector : Type 0} (indexer : Indexer Object Kind Selector) where
  abbrev pub asserted : Object → Run Kind
  asserted o = elim (indexer.as_kind o) [ none ↦ panics | some x ↦ returns x ]

  -- The function that List gives to cache.ListAll, over the objects in turn.
  unfoldable pub append_each : List Kind → List Object → Run (List Kind)
  append_each ret [] = returns ret
  append_each ret (o ∷ os) = asserted o >>= λ x. append_each (ret ++ x ∷ []) os

  -- List
  unfoldable pub list : Selector → Run (List Kind × Option Error)
  list selector =
      let (objects, e) = indexer.list_all selector in
      append_each [] objects >>= λ ret. returns (ret, e)

  -- Get
  unfoldable pub get : String → Run (Result Kind)
  get name = elim (indexer.get_by_key name) [
    | err e ↦ returns (err e)
    | ok none ↦ returns (err (indexer.new_not_found name))
    | ok (some o) ↦ asserted o >>= λ x. returns (ok x)
  ]

  append_each-asserted :
      (ret : List Kind) (o : Object) (os : List Object) (x : Kind)
      → indexer.as_kind o ≡ some x
      → append_each ret (o ∷ os) ≡ append_each (ret ++ x ∷ []) os
  unfolding append_each
  append_each-asserted ret o os x e =
      ap
        (λ k.
          (elim k [ none ↦ panics | some y ↦ returns y ]) >>= λ y. append_each (ret ++ y ∷ []) os)
        e

  -- Objects that are all of the kind are kept in the order of the indexer.
  append_each-kept :
      (to_object : Kind → Object)
      → ((x : Kind) → indexer.as_kind (to_object x) ≡ some x)
      → (ret xs : List Kind) → append_each ret (map to_object xs) ≡ returns (ret ++ xs)
  unfolding append_each
  append_each-kept to_object of_kind ret [] = ap returns (sym (append-nil ret))
  append_each-kept to_object of_kind ret (x ∷ xs) =
      append_each-asserted ret (to_object x) (map to_object xs) x (of_kind x)
      ∙ (append_each-kept to_object of_kind (ret ++ x ∷ []) xs
          ∙ ap returns (append_assoc ret (x ∷ []) xs))

  -- List returns what the indexer lists, with its error.
  pub list-kept :
      (to_object : Kind → Object)
      → ((x : Kind) → indexer.as_kind (to_object x) ≡ some x)
      → (selector : Selector) → (xs : List Kind) → (e : Option Error)
      → indexer.list_all selector ≡ (map to_object xs, e)
      → list selector ≡ returns (xs, e)
  unfolding list
  list-kept to_object of_kind selector xs e listed =
      rw (listed, append_each-kept to_object of_kind [] xs) refl
