-- ===== src/Kube/DeepCopy/Views.antt =====
-- What a value in memory means, which cells that depends on, and what a copy owes its original.
use karydia.Common.{ℕ, ◌≤◌, ◌<◌, ◌≡◌, sym, ◌∙◌, Option, none, some, List, map, arith}
use karydia.Kube.DeepCopy.{Memory, Copier, ConfigObject, PolicyObject, ObjectList, array_of}
use karydia.Kube.Custom.{TypeMeta, KarydiaConfigSpec, KarydiaConfigStatus}

module _ {Item Foreign : Type 0} where
  -- The memories have the same cells from `low` on below `high`.
  abbrev pub Agree : ℕ → ℕ → Memory Item Foreign → Memory Item Foreign → Type 0
  Agree low high m n = (a : ℕ) → low ≤ a → a < high → m.cell a ≡ n.cell a

  -- What is read in that memory depends on no other cell.
  abbrev pub DependsOn :
      {V : Type 0} → ℕ → ℕ → Memory Item Foreign → (Memory Item Foreign → V) → Type 0
  DependsOn low high m read = (n : Memory Item Foreign) → Agree low high m n → read m ≡ read n

  pub Agree-sub :
      (low low' high high' : ℕ) (m n : Memory Item Foreign)
      → low ≤ low'
      → high' ≤ high
      → Agree low high m n
      → Agree low' high' m n
  Agree-sub low low' high high' m n p q h = λ a r s. h a (omega arith) (omega arith)

  pub DependsOn-sub :
      {V : Type 0} (low low' high high' : ℕ) (m : Memory Item Foreign)
      (read : Memory Item Foreign → V)
      → low' ≤ low
      → high ≤ high'
      → DependsOn low high m read
      → DependsOn low' high' m read
  DependsOn-sub low low' high high' m read p q h =
      λ n k. h n (Agree-sub low' low high' high m n p q k)

  -- The same in a memory that agrees there.
  pub DependsOn-Agree :
      {V : Type 0} (low high : ℕ) (m n : Memory Item Foreign) (read : Memory Item Foreign → V)
      → Agree low high m n
      → DependsOn low high m read
      → DependsOn low high n read
  DependsOn-Agree low high m n read p h = λ o k. sym (h n p) ∙ h o (λ a r s. p a r s ∙ k a r s)

  -- A copy: it means the same, the cells that were there stay, and it stands in new cells alone.
  pub record IsCopy {A V : Type 0} (view : A → Memory Item Foreign → V) (x : A)
      (m : Memory Item Foreign) (y : A) (m' : Memory Item Foreign) : Type 0 where
    pub same : view y m' ≡ view x m
    pub kept : Agree 0 m.next m m'
    pub grows : m.next ≤ m'.next
    pub fresh : DependsOn m.next m'.next m' (view y)

  -- A function that copies every value whose references point into the memory.
  abbrev pub IsCopier :
      {A V : Type 0} → (A → Memory Item Foreign → V) → Copier Item Foreign A → Type 0
  IsCopier {A = A} view copy =
      (x : A) (m : Memory Item Foreign)
      → DependsOn 0 m.next m (view x)
      → IsCopy view x m (copy x m).0 (copy x m).1

-- What objects mean: their fields, with the meanings of those that hold references.
pub record ConfigView (MetaView : Type 0) : Type 0 where
  pub type_meta : TypeMeta
  pub meta : MetaView
  pub spec : KarydiaConfigSpec
  pub status : KarydiaConfigStatus

pub record PolicyView (MetaView SpecView : Type 0) : Type 0 where
  pub type_meta : TypeMeta
  pub meta : MetaView
  pub spec : SpecView

pub record ListView (ListMetaView ItemView : Type 0) : Type 0 where
  pub type_meta : TypeMeta
  pub list_meta : ListMetaView
  pub items : Option (List ItemView)

module _ {Item Foreign : Type 0} where
  abbrev pub view_config :
      {Meta MetaView : Type 0}
      → (Meta → Memory Item Foreign → MetaView)
      → ConfigObject Meta
      → Memory Item Foreign
      → ConfigView MetaView
  view_config view c m = record {
    type_meta = c.type_meta;
    meta = view c.meta m;
    spec = c.spec;
    status = c.status;
  }

  abbrev pub view_policy :
      {Meta MetaView Spec SpecView : Type 0}
      → (Meta → Memory Item Foreign → MetaView)
      → (Spec → Memory Item Foreign → SpecView)
      → PolicyObject Meta Spec
      → Memory Item Foreign
      → PolicyView MetaView SpecView
  view_policy view_meta view_spec p m = record {
    type_meta = p.type_meta;
    meta = view_meta p.meta m;
    spec = view_spec p.spec m;
  }

  abbrev pub view_each :
      {ItemView : Type 0}
      → (Item → Memory Item Foreign → ItemView)
      → List Item
      → Memory Item Foreign
      → List ItemView
  view_each view xs m = map (λ x. view x m) xs

  abbrev pub view_items :
      {ItemView : Type 0}
      → (Item → Memory Item Foreign → ItemView)
      → Option ℕ
      → Memory Item Foreign
      → Option (List ItemView)
  view_items view none m = none
  view_items view (some a) m = some (view_each view (array_of (m.cell a)) m)

  abbrev pub view_list :
      {ListMeta ListMetaView ItemView : Type 0}
      → (ListMeta → Memory Item Foreign → ListMetaView)
      → (Item → Memory Item Foreign → ItemView)
      → ObjectList ListMeta
      → Memory Item Foreign
      → ListView ListMetaView ItemView
  view_list view_meta view l m = record {
    type_meta = l.type_meta;
    list_meta = view_meta l.list_meta m;
    items = view_items view l.items m;
  }
