-- ===== src/Kube/DeepCopy/Independent.antt =====
-- The deep copies of the two list types.
use karydia.Kube.DeepCopy.{
  Memory, Copier, ConfigObject, PolicyObject, ObjectList, deep_copy_config, deep_copy_policy,
  deep_copy_list,
}
use karydia.Kube.DeepCopy.Views.{IsCopier, view_config, view_policy, view_list}
use karydia.Kube.DeepCopy.Objects.{deep_copy_config-IsCopier, deep_copy_policy-IsCopier}
use karydia.Kube.DeepCopy.Lists.{
  IsWellFormed, IsWellFormed-DependsOn, list-IsCopy, IsIndependent, IsCopy-IsIndependent,
}

module _ {Foreign Meta MetaView ListMeta ListMetaView : Type 0} where
  -- The list of configurations, under the conditions that the list of policies has, of which the
  -- specification's is not needed.
  pub deep_copy_configs-IsIndependent :
      (view_list_meta : ListMeta → Memory (ConfigObject Meta) Foreign → ListMetaView)
      (copy_list_meta : Copier (ConfigObject Meta) Foreign ListMeta)
      (copies_list_meta : IsCopier view_list_meta copy_list_meta)
      (view_meta : Meta → Memory (ConfigObject Meta) Foreign → MetaView)
      (copy_meta : Copier (ConfigObject Meta) Foreign Meta)
      (copies_meta : IsCopier view_meta copy_meta) (empty : ConfigObject Meta)
      (l : ObjectList ListMeta) (m : Memory (ConfigObject Meta) Foreign)
      → let (out, m') = deep_copy_list copy_list_meta (deep_copy_config copy_meta) empty l m in
        IsWellFormed view_list_meta (view_config view_meta) l m
        → IsIndependent (view_list view_list_meta (view_config view_meta)) l m out m'
  deep_copy_configs-IsIndependent vl cl hl vm cm hm empty l m h =
      IsCopy-IsIndependent (view_list vl (view_config vm)) l
        (deep_copy_list cl (deep_copy_config cm) empty l m).0 m
        (deep_copy_list cl (deep_copy_config cm) empty l m).1
        (IsWellFormed-DependsOn vl (view_config vm) l m h)
        (list-IsCopy vl (view_config vm) cl hl (deep_copy_config cm)
          (deep_copy_config-IsCopier vm cm hm) empty l.type_meta l.list_meta l.items m h)

  -- If the deep copies of metadata and specifications copy them into new cells alone, then the deep copy of
  -- a list of network policies whose references point into the memory means what the list means, the list
  -- means what it meant, and afterwards no change of the cells of one shows in the other.
  pub deep_copy_policies-IsIndependent :
      {Spec SpecView : Type 0}
      (view_list_meta : ListMeta → Memory (PolicyObject Meta Spec) Foreign → ListMetaView)
      (copy_list_meta : Copier (PolicyObject Meta Spec) Foreign ListMeta)
      (copies_list_meta : IsCopier view_list_meta copy_list_meta)
      (view_meta : Meta → Memory (PolicyObject Meta Spec) Foreign → MetaView)
      (copy_meta : Copier (PolicyObject Meta Spec) Foreign Meta)
      (copies_meta : IsCopier view_meta copy_meta)
      (view_spec : Spec → Memory (PolicyObject Meta Spec) Foreign → SpecView)
      (copy_spec : Copier (PolicyObject Meta Spec) Foreign Spec)
      (copies_spec : IsCopier view_spec copy_spec) (empty : PolicyObject Meta Spec)
      (l : ObjectList ListMeta) (m : Memory (PolicyObject Meta Spec) Foreign)
      → let (out, m') =
          deep_copy_list copy_list_meta (deep_copy_policy copy_meta copy_spec) empty l m in
        IsWellFormed view_list_meta (view_policy view_meta view_spec) l m
        → IsIndependent (view_list view_list_meta (view_policy view_meta view_spec)) l m out m'
  deep_copy_policies-IsIndependent vl cl hl vm cm hm vs cs hs empty l m h =
      IsCopy-IsIndependent (view_list vl (view_policy vm vs)) l
        (deep_copy_list cl (deep_copy_policy cm cs) empty l m).0 m
        (deep_copy_list cl (deep_copy_policy cm cs) empty l m).1
        (IsWellFormed-DependsOn vl (view_policy vm vs) l m h)
        (list-IsCopy vl (view_policy vm vs) cl hl (deep_copy_policy cm cs)
          (deep_copy_policy-IsCopier vm cm hm vs cs hs) empty l.type_meta l.list_meta l.items m h)
