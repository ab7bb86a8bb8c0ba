-- ===== src/Controller/Handlers/Removal.antt =====
-- deleteMultipleDefaultNetworkPolicies, with reliable calls.
use mathlib.Core.Path.{subst}
use karydia.Common.{
  String, ◌≡◌, refl, sym, ap, ◌∙◌, Bool, true, false, not, ◌&&◌, ◌||◌, Option, none, some, List, [],
  ◌∷◌, arith, ◌==◌, eq_iff, not_nil, if◌then◌else◌, inl, inr, Bool-cases, Option-cases,
}
use karydia.Common.Dict.{Dict, lookup}
use karydia.Common.Run.{Error}
use karydia.Kube.{NetworkPolicy}
use karydia.Controller.Api.{Api, IsReliable}
use karydia.Controller.Policies.{string_in_slice}
use karydia.Controller.Handlers.{delete_one, delete_from}

-- The key of an entry.
abbrev pub is_key {ℓ} : {V : Type ℓ} → String → Dict V → Bool
is_key n [] = false
is_key n ((k, v) ∷ m) = k == n || is_key n m

pub is_key-lookup {ℓ} : {V : Type ℓ} (n : String) (m : Dict V) → is_key n m ≡ not_nil (lookup n m)
unfolding lookup
is_key-lookup n [] = refl
is_key-lookup n ((k, v) ∷ m) = ground (arith, is_key-lookup n m)

module _ {Spec World : Type 0} (api : Api Spec World)
    (policy : World → String → String → Option (NetworkPolicy Spec))
    (reliable : IsReliable api policy) (expected : List String) (ns : String) where
  -- The policy `name` is gone, and all others are as in `w`.
  abbrev Without : String → World → World → Type 0
  Without name w w' =
      (ns' n' : String)
      → policy w' ns' n' ≡ (if ns == ns' && name == n' then none else policy w ns' n')

  Without-intro :
      (name : String) (w w' : World)
      → policy w' ns name ≡ none
      → ((ns' n' : String) → (ns == ns' && name == n') ≡ false → policy w' ns' n' ≡ policy w ns' n')
      → Without name w w'
  Without-intro name w w' gone frame ns' n' = elim (Bool-cases (ns == ns' && name == n')) [
    | inr other ↦ rw other (frame ns' n' other)
    | inl same ↦ rw same (
        subst (λ m. policy w' m n' ≡ none) ((eq_iff ns ns').0 (ground arith))
          (subst (λ m. policy w' ns m ≡ none) ((eq_iff name n').0 (ground arith)) gone))
  ]

  -- A name that is not expected is removed.
  delete_one-Without :
      (name : String) (w : World)
      → string_in_slice name expected ≡ false
      → ((delete_one api name expected ns w).1 ≡ none)
        × Without name w (delete_one api name expected ns w).0
  unfolding delete_one
  delete_one-Without name w unexpected = elim (Option-cases (policy w ns name)) [
    | inl missing ↦
        let (e, failed) = reliable.get_missing ns name w missing in
        rw (unexpected, failed) (refl, Without-intro name w w missing (λ ns' n' other. refl))
    | inr (p, found) ↦
        let (fine, gone) = reliable.deleted ns name w p found in
        rw (unexpected, reliable.get_found ns name w p found)
          (fine, Without-intro name w _ gone (reliable.framed.delete_frame ns name w))
  ]

  -- An expected name is left alone.
  delete_one-expected :
      (name : String) (w : World)
      → string_in_slice name expected ≡ true
      → delete_one api name expected ns w ≡ (w, none)
  unfolding delete_one
  delete_one-expected name w wanted = rw wanted

  delete_from-cons :
      (name : String) (p : NetworkPolicy Spec) (m : Dict (NetworkPolicy Spec)) (w w' : World)
      → delete_one api name expected ns w ≡ (w', none)
      → delete_from api ((name, p) ∷ m) expected ns w ≡ delete_from api m expected ns w'
  unfolding delete_from
  delete_from-cons name p m w w' e =
      ap {A = World × Option Error}
        (λ r. elim r.1 as (λ o. World × Option Error) [
          | none ↦ delete_from api m expected ns r.0
          | some failed ↦ (r.0, some failed)
        ])
        e

  skip :
      (name n' : String) (p : NetworkPolicy Spec) (m : Dict (NetworkPolicy Spec)) (w : World)
      (ns' : String)
      → string_in_slice name expected ≡ true
      → (if ns == ns' && is_key n' m && not (string_in_slice n' expected)
          then none
          else policy w ns' n')
        ≡ (if ns == ns' && is_key n' ((name, p) ∷ m) && not (string_in_slice n' expected)
            then none
            else policy w ns' n')
  skip name n' p m w ns' wanted = elim (Bool-cases (name == n')) [
    | inr other ↦ rw other refl
    | inl same ↦
        let wanted' : string_in_slice n' expected ≡ true =
          subst (λ k. string_in_slice k expected ≡ true) ((eq_iff name n').0 same) wanted in
        ground arith
  ]

  drop :
      (name n' : String) (p : NetworkPolicy Spec) (m : Dict (NetworkPolicy Spec)) (w : World)
      (ns' : String)
      → string_in_slice name expected ≡ false
      → (if ns == ns' && is_key n' m && not (string_in_slice n' expected)
          then none
          else (if ns == ns' && name == n' then none else policy w ns' n'))
        ≡ (if ns == ns' && is_key n' ((name, p) ∷ m) && not (string_in_slice n' expected)
            then none
            else policy w ns' n')
  drop name n' p m w ns' unexpected = elim (Bool-cases (name == n')) [
    | inr other ↦ ground arith
    | inl same ↦
        let unexpected' : string_in_slice n' expected ≡ false =
          subst (λ k. string_in_slice k expected ≡ false) ((eq_iff name n').0 same) unexpected in
        ground arith
  ]

  -- What the loop over `m` makes of `w`.
  abbrev Removes : Dict (NetworkPolicy Spec) → World → World × Option Error → Type 0
  Removes m w r =
      (r.1 ≡ none)
      × ((ns' n' : String)
          → policy r.0 ns' n' ≡ (
              if ns == ns' && is_key n' m && not (string_in_slice n' expected)
              then none
              else policy w ns' n'))

  -- After the loop exactly the unexpected keys are gone from the namespace.
  pub delete_from-Removes :
      (m : Dict (NetworkPolicy Spec)) (w : World) → Removes m w (delete_from api m expected ns w)
  unfolding delete_from
  delete_from-Removes [] w = (refl, λ ns' n'. ground arith)
  delete_from-Removes ((name, p) ∷ m) w = elim (Bool-cases (string_in_slice name expected)) [
    | inl wanted ↦
        let (fine, rest) = delete_from-Removes m w in
        subst (Removes ((name, p) ∷ m) w)
          (sym (delete_from-cons name p m w w (delete_one-expected name w wanted)))
          (fine, λ ns' n'. rest ns' n' ∙ skip name n' p m w ns' wanted)
    | inr unexpected ↦
        let (gone, without) = delete_one-Without name w unexpected in
        let w' : World = (delete_one api name expected ns w).0 in
        let (fine, rest) = delete_from-Removes m w' in
        subst (Removes ((name, p) ∷ m) w)
          (sym (delete_from-cons name p m w w' (ap (λ o. (w', o)) gone)))
          (fine, λ ns' n'. rest ns' n' ∙ rw (without ns' n') (drop name n' p m w ns' unexpected))
  ]

  -- Go iterates over a map in any order: with reliable calls, two lists of the same keys, in any order and
  -- with any repetition, end without an error and leave the same policies in every namespace.
  pub delete_from-order :
      (m m' : Dict (NetworkPolicy Spec)) (w : World)
      → ((n : String) → not_nil (lookup n m) ≡ not_nil (lookup n m'))
      → ((delete_from api m expected ns w).1 ≡ (delete_from api m' expected ns w).1)
        × ((ns' n' : String)
            → policy (delete_from api m expected ns w).0 ns' n'
              ≡ policy (delete_from api m' expected ns w).0 ns' n')
  delete_from-order m m' w same =
      let (fine, removed) = delete_from-Removes m w in
      let (fine', removed') = delete_from-Removes m' w in
      (
        fine ∙ sym fine',
        λ ns' n'.
            let keys = is_key-lookup n' m ∙ same n' ∙ sym (is_key-lookup n' m') in
            removed ns' n' ∙ (rw keys refl ∙ sym (removed' ns' n')),
      )
