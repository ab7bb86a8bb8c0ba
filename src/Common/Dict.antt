-- ===== src/Common/Dict.antt =====
-- Go's maps with string keys, as association lists. An iteration goes over the entries in list
-- order; Go's order is not specified, so what is proved of an iteration is proved for every list.
use karydia.Common.{
  String, ◌≡◌, refl, ◌∙◌, Bool, true, false, Option, none, some, List, [], ◌∷◌, arith, ◌==◌, eq_iff,
  eq_refl, if◌then◌else◌,
}

abbrev pub Dict {ℓ} : Type ℓ → Type ℓ
Dict V = List (String × V)

module _ {ℓ} {V : Type ℓ} where
  -- v, ok := m[k]
  unfoldable pub lookup : String → Dict V → Option V
  lookup k [] = none
  lookup k ((j, v) ∷ m) = if j == k then some v else lookup k m

  -- m[key] = new. A key that is there keeps its place.
  unfoldable pub insert : String → V → Dict V → Dict V
  insert key new [] = (key, new) ∷ []
  insert key new (entry ∷ rest) =
      let others = insert key new rest in
      if entry.0 == key then (entry.0, new) ∷ rest else entry ∷ others

  -- len(m) == 0
  abbrev pub is_empty : Dict V → Bool
  is_empty [] = true
  is_empty (_ ∷ _) = false

  pub lookup-insert :
      (key other : String) (new : V) (dict : Dict V)
      → lookup other (insert key new dict) ≡ (if key == other then some new else lookup other dict)
  unfolding lookup insert
  lookup-insert key other new [] = refl
  lookup-insert key other new ((name, old) ∷ rest) =
      let behind = lookup-insert key other new rest in
      ground (arith, behind, eq_iff name key, eq_iff name other, eq_iff key other)

  pub lookup-insert_self :
      (key : String) (new : V) (dict : Dict V) → lookup key (insert key new dict) ≡ some new
  lookup-insert_self key new dict = lookup-insert key key new dict ∙ rw (eq_refl key)

  pub insert-empty :
      (k : String) (v : V) (m : Dict V) → is_empty m ≡ true → insert k v m ≡ (k, v) ∷ []
  unfolding insert
  insert-empty k v [] e = refl
  insert-empty k v ((j, w) ∷ m) e = ground arith

  pub is_empty-insert : (k : String) (v : V) (m : Dict V) → is_empty (insert k v m) ≡ false
  unfolding insert
  is_empty-insert k v [] = refl
  is_empty-insert k v ((j, w) ∷ m) = ground arith
