-- ===== src/Tests/Copies.antt =====
-- A list of one policy in memory, and its deep copy.
use karydia.Common.{
  ℕ, zero, suc, String, ◌<◌, ◌≡◌, refl, sym, ap, Option, none, some, [], ◌∷◌, arith,
}
use karydia.Common.Dict.{Dict}
use karydia.Kube.DeepCopy.{
  Cell, array, foreign, Memory, Copier, allocate, array_of, PolicyObject, ObjectList,
  deep_copy_plain, deep_copy_policy, deep_copy_list,
}
use karydia.Kube.DeepCopy.Views.{DependsOn, IsCopier, view_policy, view_list}
use karydia.Kube.DeepCopy.Objects.{deep_copy_plain-IsCopier}
use karydia.Kube.DeepCopy.Fills.{write-same, write-other, AllDepend}
use karydia.Kube.DeepCopy.Lists.{IsWellFormed, IsIndependent}
use karydia.Kube.DeepCopy.Independent.{deep_copy_policies-IsIndependent}

-- Metadata and a specification are each the address of a map.
abbrev Stored : Type 0
Stored = PolicyObject ℕ ℕ

abbrev Shop : Type 0
Shop = Memory Stored (Dict String)

abbrev map_of : Option (Cell Stored (Dict String)) → Dict String
map_of none = []
map_of (some (array xs)) = []
map_of (some (foreign d)) = d

abbrev view_map : ℕ → Shop → Dict String
view_map a m = map_of (m.cell a)

abbrev copy_map : Copier Stored (Dict String) ℕ
copy_map a m = allocate (foreign (view_map a m)) m

copy_map-IsCopier : IsCopier view_map copy_map
copy_map-IsCopier a m closed =
    let taken : Shop = record m { next = suc m.next } in
    let copied : Cell Stored (Dict String) = foreign (view_map a m) in
    record {
      same = ap map_of (write-same m.next copied taken);
      kept = λ b p q. sym (write-other b m.next copied taken (λ e. omega arith));
      grows = omega arith;
      fresh = λ n k. ap map_of (k m.next (omega arith) (omega arith));
    }

abbrev deny_all : Stored
deny_all = record {
  type_meta = record { kind = "KarydiaNetworkPolicy"; api_version = "v1alpha1" };
  meta = 0;
  spec = 2;
}

abbrev cells : ℕ → Option (Cell Stored (Dict String))
cells zero = some (foreign (("team", "shop") ∷ []))
cells (suc zero) = some (array (deny_all ∷ []))
cells (suc (suc zero)) = some (foreign (("egress", "none") ∷ []))
cells (suc (suc (suc n))) = none

abbrev stock : Shop
stock = record { next = 3; cell = cells }

abbrev policies : ObjectList String
policies = record {
  type_meta = record { kind = "KarydiaNetworkPolicyList"; api_version = "v1alpha1" };
  list_meta = "7";
  items = some 1;
}

deny_all-DependsOn : DependsOn 0 3 stock (view_policy view_map view_map deny_all)
deny_all-DependsOn n k = λ i. record {
  type_meta = deny_all.type_meta;
  meta = map_of (k 0 (omega arith) (omega arith) i);
  spec = map_of (k 2 (omega arith) (omega arith) i);
}

policies-IsWellFormed :
    IsWellFormed {Item = Stored} {Foreign = Dict String}
      (λ t m. t)
      (view_policy view_map view_map)
      policies
      stock
policies-IsWellFormed = (λ n k. refl, inside)
  where
    inside :
        (a : ℕ)
        → ◌≡◌ {A = Option ℕ} (some 1) (some a)
        → (a < 3) × AllDepend (view_policy view_map view_map) 0 3 stock (array_of (cells a))
    inside zero e = absurd (cc e)
    inside (suc zero) e = (omega arith, (deny_all-DependsOn, tt))
    inside (suc (suc n)) e = absurd (cc e)

deep_copy_policies-IsIndependent_example :
    let (out, m') =
      deep_copy_list deep_copy_plain (deep_copy_policy copy_map copy_map) deny_all policies stock in
    IsIndependent (view_list (λ t m. t) (view_policy view_map view_map)) policies stock out m'
deep_copy_policies-IsIndependent_example =
    deep_copy_policies-IsIndependent (λ t m. t) deep_copy_plain (deep_copy_plain-IsCopier (λ t. t))
      view_map copy_map copy_map-IsCopier view_map copy_map copy_map-IsCopier deny_all policies
      stock policies-IsWellFormed
