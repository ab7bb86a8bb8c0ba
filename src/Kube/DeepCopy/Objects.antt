-- ===== src/Kube/DeepCopy/Objects.antt =====
-- Copies of single objects.
use karydia.Common.{ℕ, ◌≤◌, ◌≡◌, refl, sym, ◌∙◌, ap, arith}
use karydia.Kube.DeepCopy.{Memory, Copier, deep_copy_config, deep_copy_policy, deep_copy_plain}
use karydia.Kube.DeepCopy.Views.{
  Agree, DependsOn, Agree-sub, DependsOn-sub, DependsOn-Agree, IsCopier, ConfigView, PolicyView,
  view_config, view_policy,
}

module _ {Item Foreign : Type 0} where
  pub Agree-trans :
      (high high' : ℕ) (m n o : Memory Item Foreign)
      → high ≤ high'
      → Agree 0 high m n
      → Agree 0 high' n o
      → Agree 0 high m o
  Agree-trans high high' m n o p h k = λ a r s. h a r s ∙ k a r (omega arith)

  -- What stood in memory before a copy means the same behind it.
  pub view-kept :
      {A V : Type 0} (view : A → Memory Item Foreign → V) (x : A) (m m' : Memory Item Foreign)
      → DependsOn 0 m.next m (view x)
      → Agree 0 m.next m m'
      → view x m' ≡ view x m
  view-kept view x m m' closed kept = sym (closed m' kept)

  pub deep_copy_plain-IsCopier :
      {A V : Type 0} (view : A → V)
      → IsCopier {Item = Item} {Foreign = Foreign} (λ x m. view x) deep_copy_plain
  unfolding deep_copy_plain
  deep_copy_plain-IsCopier view x m closed = record {
    same = refl;
    kept = λ a p q. refl;
    grows = omega arith;
    fresh = λ n h. refl;
  }

  module _ {Meta MetaView : Type 0} (view_meta : Meta → Memory Item Foreign → MetaView)
      (copy_meta : Copier Item Foreign Meta) (copies : IsCopier view_meta copy_meta) where
    pub deep_copy_config-IsCopier : IsCopier (view_config view_meta) (deep_copy_config copy_meta)
    unfolding deep_copy_config
    deep_copy_config-IsCopier c m closed =
        let copied = copies c.meta m (λ n h. ap (λ v. v.meta) (closed n h)) in
        let rebuild : MetaView → ConfigView MetaView =
          λ v. record { type_meta = c.type_meta; meta = v; spec = c.spec; status = c.status } in
        record {
          same = ap rebuild copied.same;
          kept = copied.kept;
          grows = copied.grows;
          fresh = λ n h. ap rebuild (copied.fresh n h);
        }

    module _ {Spec SpecView : Type 0} (view_spec : Spec → Memory Item Foreign → SpecView)
        (copy_spec : Copier Item Foreign Spec) (copies_spec : IsCopier view_spec copy_spec) where
      pub deep_copy_policy-IsCopier :
          IsCopier (view_policy view_meta view_spec) (deep_copy_policy copy_meta copy_spec)
      unfolding deep_copy_policy
      deep_copy_policy-IsCopier p m closed =
          let m1 = (copy_meta p.meta m).1 in
          let m2 = (copy_spec p.spec m1).1 in
          let closed_spec : DependsOn 0 m.next m (view_spec p.spec) =
            λ n h. ap (λ v. v.spec) (closed n h) in
          let first = copies p.meta m (λ n h. ap (λ v. v.meta) (closed n h)) in
          let second = copies_spec p.spec m1 (
            DependsOn-sub 0 0 m.next m1.next m1 (view_spec p.spec) (omega arith) first.grows
              (DependsOn-Agree 0 m.next m m1 (view_spec p.spec) first.kept closed_spec)) in
          let rebuild : MetaView → SpecView → PolicyView MetaView SpecView =
            λ v w. record { type_meta = p.type_meta; meta = v; spec = w } in
          let meta = (copy_meta p.meta m).0 in
          let after : Agree m.next m1.next m1 m2 =
            Agree-sub 0 m.next m1.next m1.next m1 m2 (omega arith) (omega arith) second.kept in
          let meta_same = sym (first.fresh m2 after) ∙ first.same in
          let spec_same = second.same ∙ view-kept view_spec p.spec m m1 closed_spec first.kept in
          let meta_fresh =
            DependsOn-sub m.next m.next m1.next m2.next m2 (view_meta meta) (omega arith)
              second.grows
              (DependsOn-Agree m.next m1.next m1 m2 (view_meta meta) after first.fresh) in
          record {
            same = (λ i. rebuild (meta_same i) (spec_same i));
            kept = Agree-trans m.next m1.next m m1 m2 first.grows first.kept second.kept;
            grows = omega (arith, first.grows, second.grows);
            fresh = λ n h. λ i. rebuild (meta_fresh n h i) (
                second.fresh n
                  (Agree-sub m.next m1.next m2.next m2.next m2 n first.grows (omega arith) h) i);
          }
