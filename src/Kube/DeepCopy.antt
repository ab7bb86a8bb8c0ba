-- ===== src/Kube/DeepCopy.antt =====
-- pkg/apis/karydia/v1alpha1/zz_generated.deepcopy.go, over a memory with addresses. The metadata of objects
-- and lists and the specifications of policies are types of Kubernetes: their values may hold addresses,
-- and their own deep copies are parameters.
pub mod Views
pub mod Objects
pub mod Fills
pub mod Lists
pub mod Independent
use karydia.Common.{
  ℕ, zero, suc, ◌+◌, String, Bool, ◌≡◌, Option, none, some, List, [], ◌∷◌, ◌++◌, length,
  if◌then◌else◌, num_eq,
}
use karydia.Kube.Custom.{TypeMeta, KarydiaConfigSpec, KarydiaConfigStatus}

-- A memory: the arrays of lists and whatever other cells there are.
pub data Cell (Item Foreign : Type 0) : Type 0 where
  array : List Item → Cell Item Foreign
  foreign : Foreign → Cell Item Foreign

pub record Memory (Item Foreign : Type 0) : Type 0 where
  pub next : ℕ
  pub cell : ℕ → Option (Cell Item Foreign)

abbrev pub replicate : {Item : Type 0} → ℕ → Item → List Item
replicate zero x = []
replicate (suc n) x = x ∷ replicate n x

-- A function like DeepCopyInto of a type, as the value that it writes and the memory that it leaves.
abbrev pub Copier : Type 0 → Type 0 → Type 0 → Type 0
Copier Item Foreign A = A → Memory Item Foreign → A × Memory Item Foreign

module _ {Item Foreign : Type 0} where
  abbrev pub write : ℕ → Cell Item Foreign → Memory Item Foreign → Memory Item Foreign
  write a c m = record m { cell = λ b. if num_eq a b then some c else m.cell b }

  -- make or new
  abbrev pub allocate : Cell Item Foreign → Memory Item Foreign → ℕ × Memory Item Foreign
  allocate c m = (m.next, write m.next c (record m { next = suc m.next }))

  -- The array that a slice points at.
  abbrev pub array_of : Option (Cell Item Foreign) → List Item
  array_of none = []
  array_of (some (foreign f)) = []
  array_of (some (array xs)) = xs

-- KarydiaConfig, with its metadata
pub record ConfigObject (Meta : Type 0) : Type 0 where
  pub type_meta : TypeMeta
  pub meta : Meta
  pub spec : KarydiaConfigSpec
  pub status : KarydiaConfigStatus

-- KarydiaNetworkPolicy
pub record PolicyObject (Meta Spec : Type 0) : Type 0 where
  pub type_meta : TypeMeta
  pub meta : Meta
  pub spec : Spec

-- KarydiaConfigList and KarydiaNetworkPolicyList: a slice is nil or the address of its array.
pub record ObjectList (ListMeta : Type 0) : Type 0 where
  pub type_meta : TypeMeta
  pub list_meta : ListMeta
  pub items : Option ℕ

module _ {Item Foreign : Type 0} where
  -- DeepCopy and DeepCopyObject by DeepCopyInto: nil for nil, and a new object otherwise.
  unfoldable pub deep_copy : {A : Type 0} → Copier Item Foreign A → Copier Item Foreign (Option A)
  deep_copy copy none m = (none, m)
  deep_copy copy (some x) m = let (y, m') = copy x m in (some y, m')

  -- KarydiaConfigSpec and KarydiaConfigStatus have no references.
  unfoldable pub deep_copy_plain : {A : Type 0} → Copier Item Foreign A
  deep_copy_plain x m = (x, m)

  module _ {Meta : Type 0} (copy_meta : Copier Item Foreign Meta) where
    unfoldable pub deep_copy_config : Copier Item Foreign (ConfigObject Meta)
    deep_copy_config c m = let (meta, m') = copy_meta c.meta m in (record c { meta = meta }, m')

    unfoldable pub deep_copy_policy :
        {Spec : Type 0} → Copier Item Foreign Spec → Copier Item Foreign (PolicyObject Meta Spec)
    deep_copy_policy copy_spec p m =
        let (meta, m1) = copy_meta p.meta m in
        let (spec, m2) = copy_spec p.spec m1 in (record p { meta = meta; spec = spec }, m2)

  -- The loop over the items. The new array, at `b`, has the items that are copied and empty ones behind.
  unfoldable pub copy_each :
      Copier Item Foreign Item
      → Item
      → ℕ
      → List Item
      → List Item
      → Memory Item Foreign
      → Memory Item Foreign
  copy_each copy empty b copied [] m = m
  copy_each copy empty b copied (x ∷ xs) m =
      let (y, m') = copy x m in
      copy_each copy empty b (copied ++ y ∷ []) xs
        (write b (array (copied ++ y ∷ replicate (length xs) empty)) m')

  -- DeepCopyInto of a list, by that of its items
  unfoldable pub deep_copy_list :
      {ListMeta : Type 0}
      → Copier Item Foreign ListMeta
      → Copier Item Foreign Item
      → Item
      → Copier Item Foreign (ObjectList ListMeta)
  deep_copy_list copy_meta copy empty l m =
      let (list_meta, m1) = copy_meta l.list_meta m in
      elim l.items [
        | none ↦ (record l { list_meta = list_meta }, m1)
        | some a ↦
            let xs = array_of (m1.cell a) in
            let (b, m2) = allocate (array (replicate (length xs) empty)) m1 in
            (record l { list_meta = list_meta; items = some b }, copy_each copy empty b [] xs m2)
      ]
