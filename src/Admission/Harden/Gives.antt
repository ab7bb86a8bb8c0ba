-- ===== src/Admission/Harden/Gives.antt =====
-- What a list of patches gives, and how one more annotation changes it.
use karydia.Common.{
  String, true, false, not, ◌&&◌, ◌≡◌, refl, sym, ◌∙◌, ap, some, [], ◌∷◌, arith, is_nil, Bool-cases,
  inl, inr,
}
use karydia.Common.Dict.{Dict, lookup, insert, is_empty, is_empty-insert}
use karydia.Common.Pointer.{tokens, unescape}
use karydia.Common.Text.{Lacks, concat, split, replace}
use karydia.Kube.{Pod}
use karydia.Admission.Types.{Setting, PatchValue, text, text_map, Patches}
use karydia.Admission.Patch.{with_annotations, locate, add_at, apply_operation, apply, apply-concat}
use karydia.Admission.Harden.{annotate, harden_seccomp}
use karydia.Admission.Paths.{locate-annotation}
use karydia.Admission.Pod.{
  add_operation, annotate_pod, seccomp_key, seccomp_internal_key, source_of,
  mutate_pod_seccomp_profile,
}

-- The patches `p`, made for `pod`, turn it into `q`; and the annotations of `q` are still absent
-- exactly if those of `pod` are and `p` has added none.
pub record Gives (pod : Pod) (p : Patches) (q : Pod) : Type 0 where
  pub applied : apply p.operations pod ≡ some q
  pub absent : is_empty q.meta.annotations ≡ (is_empty pod.meta.annotations && not p.annotated)

pub Gives-add_operation :
    {pod q q' : Pod} {p : Patches} (path : String) (value : PatchValue)
    → Gives pod p q
    → apply_operation (record { op = "add"; path = path; value = value }) q ≡ some q'
    → is_empty q'.meta.annotations ≡ is_empty q.meta.annotations
    → Gives pod (add_operation path value p) q'
Gives-add_operation {pod} {q} {p} path value g e same = record {
  applied = apply-concat p.operations _ pod q g.applied ∙ e;
  absent = same ∙ g.absent;
}

insert_of_empty :
    (key value : String) (m : Dict String)
    → is_empty m ≡ true
    → insert key value m ≡ (key, value) ∷ []
unfolding insert
insert_of_empty key value [] e = refl
insert_of_empty key value (_ ∷ _) e = cc

apply-annotations :
    (key value : String) (q : Pod)
    → is_empty q.meta.annotations ≡ true
    → apply_operation
        (record {
          op = "add";
          path = "/metadata/annotations";
          value = text_map ((key, value) ∷ []);
        })
        q
      ≡ some (annotate key value q)
unfolding apply_operation locate tokens split unescape add_at
apply-annotations key value q e =
    ap (λ m. some (with_annotations m q)) (sym (insert_of_empty key value q.meta.annotations e))

apply-annotation :
    (key value : String) (q : Pod)
    → Lacks b'~' key
    → is_empty q.meta.annotations ≡ false
    → apply_operation
        (record {
          op = "add";
          path = concat ("/metadata/annotations/" ∷ replace b'/' "~1" key ∷ []);
          value = text value;
        })
        q
      ≡ some (annotate key value q)
unfolding apply_operation add_at
apply-annotation key value q plain e = rw (locate-annotation key plain, e)

pub Gives-annotate_pod :
    {pod q : Pod} {p : Patches} (key value : String)
    → Lacks b'~' key
    → Gives pod p q
    → Gives pod (annotate_pod pod p key value) (annotate key value q)
unfolding annotate_pod
Gives-annotate_pod {pod} {q} {p} key value plain g =
    elim (Bool-cases (is_empty pod.meta.annotations && not p.annotated)) [
      | inl first ↦ rw first (record {
        applied =
            apply-concat p.operations _ pod q g.applied
            ∙ apply-annotations key value q (g.absent ∙ first);
        absent = ground (arith, is_empty-insert key value q.meta.annotations);
      })
      | inr later ↦ rw later (record {
        applied =
            apply-concat p.operations _ pod q g.applied
            ∙ apply-annotation key value q plain (g.absent ∙ later);
        absent = is_empty-insert key value q.meta.annotations ∙ sym later;
      })
    ]

-- The three keys that the plugin writes have no tilde.
pub Gives-mutate_pod_seccomp_profile :
    {pod : Pod} {p : Patches} (setting : Setting)
    → Gives pod p pod
    → Gives pod (mutate_pod_seccomp_profile pod setting p) (harden_seccomp setting pod)
unfolding mutate_pod_seccomp_profile harden_seccomp
Gives-mutate_pod_seccomp_profile {pod} {p} setting g =
    elim (Bool-cases (is_nil (lookup seccomp_key pod.meta.annotations))) [
      | inl missing ↦ rw missing (
          Gives-annotate_pod seccomp_internal_key (source_of setting) (omega arith)
            (Gives-annotate_pod seccomp_key setting.value (omega arith) g))
      | inr there ↦ rw there g
    ]
