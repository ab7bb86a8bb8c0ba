-- ===== src/Kube/DeepCopy/Lists.antt =====
-- Copies of lists, and what they share with their originals: nothing.
use mathlib.Core.Path.{subst}
use karydia.Common.{ℕ, suc, ◌<◌, ◌≡◌, refl, sym, ◌∙◌, ap, Option, none, some, [], length, arith}
use karydia.Kube.Custom.{TypeMeta}
use karydia.Kube.DeepCopy.{
  Cell, array, Memory, Copier, allocate, replicate, array_of, ObjectList, copy_each, deep_copy_list,
}
use karydia.Kube.DeepCopy.Views.{
  Agree, DependsOn, Agree-sub, DependsOn-sub, DependsOn-Agree, IsCopy, IsCopier, view_each,
  view_items, view_list,
}
use karydia.Kube.DeepCopy.Objects.{Agree-trans}
use karydia.Kube.DeepCopy.Fills.{
  write-same, write-other, AllDepend, AllDepend-Agree, AllDepend-sub, view_each-Agree,
  copy_each-Filled,
}

module _ {Item Foreign ListMeta ListMetaView V : Type 0}
    (view_meta : ListMeta → Memory Item Foreign → ListMetaView)
    (view : Item → Memory Item Foreign → V) where
  -- The references of a list point into the memory.
  abbrev pub IsWellFormed : ObjectList ListMeta → Memory Item Foreign → Type 0
  IsWellFormed l m =
      DependsOn 0 m.next m (view_meta l.list_meta)
      × ((a : ℕ)
          → l.items ≡ some a
          → (a < m.next) × AllDepend view 0 m.next m (array_of (m.cell a)))

  well_formed-items :
      (items : Option ℕ) (m n : Memory Item Foreign)
      → ((a : ℕ) → items ≡ some a → (a < m.next) × AllDepend view 0 m.next m (array_of (m.cell a)))
      → Agree 0 m.next m n
      → view_items view items m ≡ view_items view items n
  well_formed-items none m n h k = refl
  well_formed-items (some a) m n h k =
      let (inside, closed) = h a refl in
      ap (λ vs. some vs)
        (view_each-Agree view 0 m.next (array_of (m.cell a)) m n closed k
          ∙ ap (λ c. view_each view (array_of c) n) (k a (omega arith) inside))

  pub IsWellFormed-DependsOn :
      (l : ObjectList ListMeta) (m : Memory Item Foreign)
      → IsWellFormed l m
      → DependsOn 0 m.next m (view_list view_meta view l)
  IsWellFormed-DependsOn l m h n k = λ i. record {
    type_meta = l.type_meta;
    list_meta = h.0 n k i;
    items = well_formed-items l.items m n h.1 k i;
  }

  module _ (copy_meta : Copier Item Foreign ListMeta) (copies_meta : IsCopier view_meta copy_meta)
      (copy : Copier Item Foreign Item) (copies : IsCopier view copy) (empty : Item) where
    items-IsCopy :
        (a : ℕ) (m : Memory Item Foreign)
        → AllDepend view 0 m.next m (array_of (m.cell a))
        → let xs = array_of (m.cell a) in
          let (b, m1) = allocate (array (replicate (length xs) empty)) m in
          IsCopy (view_items view) (some a) m (some b) (copy_each copy empty b [] xs m1)
    items-IsCopy a m closed =
        let xs = array_of (m.cell a) in
        let b = m.next in
        let zeros : Cell Item Foreign = array (replicate (length xs) empty) in
        let m1 = (allocate zeros m).1 in
        let m2 = copy_each copy empty b [] xs m1 in
        let wrote : Agree 0 b m m1 = λ c p q.
          sym (write-other c b zeros (record m { next = suc m.next }) (λ e. omega arith)) in
        let filled =
          copy_each-Filled view copy copies empty b [] xs m1 (omega arith)
            (write-same b zeros (record m { next = suc m.next }))
            (AllDepend-Agree view 0 b m m1 xs wrote closed) in
        let read : array_of (m2.cell b) ≡ filled.items = ap array_of filled.filled in
        record {
          same =
              ap (λ vs. some vs)
                (ap (λ ys. view_each view ys m2) read
                  ∙ filled.same
                  ∙ sym (view_each-Agree view 0 b xs m m1 closed wrote));
          kept = λ c p q. wrote c p q ∙ filled.kept c (omega arith) (λ e. omega arith);
          grows = omega (arith, filled.grows);
          fresh = λ n k.
              ap (λ vs. some vs)
                (ap (λ ys. view_each view ys m2) read
                  ∙ view_each-Agree view (suc b) m2.next filled.items m2 n filled.fresh
                      (Agree-sub b (suc b) m2.next m2.next m2 n (omega arith) (omega arith) k)
                  ∙ ap (λ ys. view_each view ys n)
                      (sym read ∙ ap array_of (k b (omega arith) (omega (arith, filled.grows)))));
        }

    pub list-IsCopy :
        (t : TypeMeta) (list_meta : ListMeta) (items : Option ℕ) (m : Memory Item Foreign)
        → let l : ObjectList ListMeta = record {
          type_meta = t;
          list_meta = list_meta;
          items = items;
        } in
          let (out, m') = deep_copy_list copy_meta copy empty l m in
          IsWellFormed l m → IsCopy (view_list view_meta view) l m out m'
    unfolding deep_copy_list
    list-IsCopy t list_meta none m h =
        let first = copies_meta list_meta m h.0 in
        record {
          same = λ i. record { type_meta = t; list_meta = first.same i; items = none };
          kept = first.kept;
          grows = first.grows;
          fresh = λ n k. λ i. record { type_meta = t; list_meta = first.fresh n k i; items = none };
        }
    list-IsCopy t list_meta (some a) m h =
        let first = copies_meta list_meta m h.0 in
        let (inside, closed) = h.1 a refl in
        let meta = (copy_meta list_meta m).0 in
        let m1 = (copy_meta list_meta m).1 in
        let array_same : array_of (m.cell a) ≡ array_of (m1.cell a) =
          ap array_of (first.kept a (omega arith) inside) in
        let closed_later : AllDepend view 0 m1.next m1 (array_of (m1.cell a)) =
          subst (AllDepend view 0 m1.next m1) array_same (
            AllDepend-sub view 0 0 m.next m1.next m1 (array_of (m.cell a)) (omega arith) first.grows
              (AllDepend-Agree view 0 m.next m m1 (array_of (m.cell a)) first.kept closed)) in
        let second = items-IsCopy a m1 closed_later in
        let m2 =
          (deep_copy_list copy_meta copy empty
            (record { type_meta = t; list_meta = list_meta; items = some a }) m).1 in
        let after : Agree m.next m1.next m1 m2 =
          Agree-sub 0 m.next m1.next m1.next m1 m2 (omega arith) (omega arith) second.kept in
        let meta_same = sym (first.fresh m2 after) ∙ first.same in
        let items_same = second.same ∙ sym (well_formed-items (some a) m m1 h.1 first.kept) in
        let meta_fresh =
          DependsOn-sub m.next m.next m1.next m2.next m2 (view_meta meta) (omega arith) second.grows
            (DependsOn-Agree m.next m1.next m1 m2 (view_meta meta) after first.fresh) in
        record {
          same = λ i. record { type_meta = t; list_meta = meta_same i; items = items_same i };
          kept = Agree-trans m.next m1.next m m1 m2 first.grows first.kept second.kept;
          grows = omega (arith, first.grows, second.grows);
          fresh = λ n k. λ i. record {
            type_meta = t;
            list_meta = meta_fresh n k i;
            items =
                second.fresh n
                  (Agree-sub m.next m1.next m2.next m2.next m2 n first.grows (omega arith) k) i;
          };
        }

-- A value and its copy: they mean the same, and no change of the cells of one is seen through the other.
-- The original has the cells below those that the copying took.
pub record IsIndependent {Item Foreign A V : Type 0} (view : A → Memory Item Foreign → V) (x : A)
    (m : Memory Item Foreign) (y : A) (m' : Memory Item Foreign) : Type 0 where
  pub same : view y m' ≡ view x m
  pub unchanged : view x m' ≡ view x m
  pub original_stays : (n : Memory Item Foreign) → Agree 0 m.next m' n → view x n ≡ view x m
  pub copy_stays : (n : Memory Item Foreign) → Agree m.next m'.next m' n → view y n ≡ view x m

pub IsCopy-IsIndependent :
    {Item Foreign A V : Type 0} (view : A → Memory Item Foreign → V) (x y : A)
    (m m' : Memory Item Foreign)
    → DependsOn 0 m.next m (view x)
    → IsCopy view x m y m'
    → IsIndependent view x m y m'
IsCopy-IsIndependent view x y m m' closed c = record {
  same = c.same;
  unchanged = sym (closed m' c.kept);
  original_stays = λ n k. sym (closed n (λ a p q. c.kept a p q ∙ k a p q));
  copy_stays = λ n k. sym (c.fresh n k) ∙ c.same;
}
