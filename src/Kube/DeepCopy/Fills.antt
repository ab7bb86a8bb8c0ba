-- ===== src/Kube/DeepCopy/Fills.antt =====
-- The loop over the items of a list.
use mathlib.Core.List.{append_assoc}
use karydia.Common.{
  ℕ, suc, ◌≤◌, ◌<◌, ◌≡◌, ◌≢◌, refl, sym, ◌∙◌, ap, some, List, [], ◌∷◌, ◌++◌, length, arith, All,
}
use karydia.Kube.DeepCopy.{Cell, array, Memory, Copier, write, replicate, copy_each}
use karydia.Kube.DeepCopy.Views.{
  Agree, DependsOn, DependsOn-sub, DependsOn-Agree, IsCopier, view_each,
}

module _ {Item Foreign : Type 0} where
  pub write-same :
      (b : ℕ) (c : Cell Item Foreign) (m : Memory Item Foreign) → (write b c m).cell b ≡ some c
  write-same b c m = ground arith

  pub write-other :
      (a b : ℕ) (c : Cell Item Foreign) (m : Memory Item Foreign)
      → (a ≡ b → ⊥)
      → (write b c m).cell a ≡ m.cell a
  write-other a b c m h = ground arith

  module _ {V : Type 0} (view : Item → Memory Item Foreign → V) where
    -- Items whose meaning depends only on those cells.
    abbrev pub AllDepend : ℕ → ℕ → Memory Item Foreign → List Item → Type 0
    AllDepend low high m = All (λ x. DependsOn low high m (view x))

    pub AllDepend-Agree :
        (low high : ℕ) (m n : Memory Item Foreign) (xs : List Item)
        → Agree low high m n
        → AllDepend low high m xs
        → AllDepend low high n xs
    AllDepend-Agree low high m n [] k h = tt
    AllDepend-Agree low high m n (x ∷ xs) k h =
        (DependsOn-Agree low high m n (view x) k h.0, AllDepend-Agree low high m n xs k h.1)

    pub AllDepend-sub :
        (low low' high high' : ℕ) (m : Memory Item Foreign) (xs : List Item)
        → low' ≤ low
        → high ≤ high'
        → AllDepend low high m xs
        → AllDepend low' high' m xs
    AllDepend-sub low low' high high' m [] p q h = tt
    AllDepend-sub low low' high high' m (x ∷ xs) p q h = (
      DependsOn-sub low low' high high' m (view x) p q h.0,
      AllDepend-sub low low' high high' m xs p q h.1,
    )

    pub view_each-Agree :
        (low high : ℕ) (xs : List Item) (m n : Memory Item Foreign)
        → AllDepend low high m xs
        → Agree low high m n
        → view_each view xs m ≡ view_each view xs n
    view_each-Agree low high [] m n h k = refl
    view_each-Agree low high (x ∷ xs) m n h k =
        λ i. h.0 n k i ∷ view_each-Agree low high xs m n h.1 k i

    -- What the loop leaves behind: the array at `b` has the copied items and then copies of the others.
    pub record Filled (b : ℕ) (copied xs : List Item) (m m' : Memory Item Foreign) : Type 0 where
      pub items : List Item
      pub filled : m'.cell b ≡ some (array (copied ++ items))
      pub same : view_each view items m' ≡ view_each view xs m
      pub kept : (a : ℕ) → a < m.next → a ≢ b → m.cell a ≡ m'.cell a
      pub grows : m.next ≤ m'.next
      pub fresh : AllDepend (suc b) m'.next m' items

    module _ (copy : Copier Item Foreign Item) (copies : IsCopier view copy) (empty : Item) where
      pub copy_each-Filled :
          (b : ℕ) (copied xs : List Item) (m : Memory Item Foreign)
          → b < m.next
          → m.cell b ≡ some (array (copied ++ replicate (length xs) empty))
          → AllDepend 0 b m xs
          → Filled b copied xs m (copy_each copy empty b copied xs m)
      unfolding copy_each
      copy_each-Filled b copied [] m below at closed = record {
        items = [];
        filled = at;
        same = refl;
        kept = λ a p q. refl;
        grows = omega arith;
        fresh = tt;
      }
      copy_each-Filled b copied (x ∷ xs) m below at closed =
          let y = (copy x m).0 in
          let m1 = (copy x m).1 in
          let m2 = write b (array (copied ++ y ∷ replicate (length xs) empty)) m1 in
          let first =
            copies x m
              (DependsOn-sub 0 0 b m.next m (view x) (omega arith) (omega arith) closed.0) in
          let new_at : m2.cell b
              ≡ some (array ((copied ++ y ∷ []) ++ replicate (length xs) empty)) =
            write-same b (array (copied ++ y ∷ replicate (length xs) empty)) m1
            ∙ ap (λ zs. some (array zs))
                (sym (append_assoc copied (y ∷ []) (replicate (length xs) empty))) in
          let wrote : (a : ℕ) → (a ≡ b → ⊥) → m1.cell a ≡ m2.cell a = λ a ne.
            sym (write-other a b (array (copied ++ y ∷ replicate (length xs) empty)) m1 ne) in
          let agree_old : Agree 0 b m m2 =
            λ a p q. first.kept a p (omega arith) ∙ wrote a (λ e. omega arith) in
          let rest =
            copy_each-Filled b (copied ++ y ∷ []) xs m2 (omega (arith, first.grows)) new_at
              (AllDepend-Agree 0 b m m2 xs agree_old closed.1) in
          let m' = copy_each copy empty b (copied ++ y ∷ []) xs m2 in
          let agree_new : Agree m.next m1.next m1 m' =
            λ a p q. wrote a (λ e. omega arith) ∙ rest.kept a q (λ e. omega arith) in
          let first_same : view y m' ≡ view x m = sym (first.fresh m' agree_new) ∙ first.same in
          let rest_same : view_each view rest.items m' ≡ view_each view xs m =
            rest.same ∙ sym (view_each-Agree 0 b xs m m2 closed.1 agree_old) in
          record {
            items = y ∷ rest.items;
            filled =
                rest.filled ∙ ap (λ zs. some (array zs)) (append_assoc copied (y ∷ []) rest.items);
            same = λ i. first_same i ∷ rest_same i;
            kept = λ a p ne.
                first.kept a (omega arith) p
                ∙ wrote a ne
                ∙ rest.kept a (omega (arith, first.grows)) ne;
            grows = omega (arith, first.grows, rest.grows);
            fresh = (
              DependsOn-sub m.next (suc b) m1.next m'.next m' (view y) (omega arith) rest.grows
                  (DependsOn-Agree m.next m1.next m1 m' (view y) agree_new first.fresh),
              rest.fresh,
            );
          }
