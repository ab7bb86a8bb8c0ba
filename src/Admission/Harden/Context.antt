-- ===== src/Admission/Harden/Context.antt =====
-- The patches of the pod's security context.
use mathlib.Core.Option
use karydia.Common.{◌&&◌, ◌≡◌, refl, ap, Option, none, some, arith, is_nil, Bool-cases, inl, inr}
use karydia.Common.Decimal.{pos}
use karydia.Common.Pointer.{tokens, unescape}
use karydia.Common.Text.{split}
use karydia.Kube.{Pod, PodSecurityContext}
use karydia.Admission.Types.{Setting, number, security_context, Patches}
use karydia.Admission.Patch.{with_context, locate, add_at, apply_operation}
use karydia.Admission.Harden.{nobody, harden_context}
use karydia.Admission.Pod.{context_internal_key, source_of, nobody_id, set_context}
use karydia.Admission.Harden.Gives.{Gives, Gives-add_operation, Gives-annotate_pod}

apply-pod_user :
    (q : Pod) (sc : PodSecurityContext)
    → q.spec.security_context ≡ some sc
    → apply_operation
        (record {
          op = "add";
          path = "/spec/securityContext/runAsUser";
          value = number (pos nobody_id);
        })
        q
      ≡ some (with_context (some (record sc { run_as_user = some (pos nobody_id) })) q)
unfolding apply_operation locate tokens split unescape add_at
apply-pod_user q sc e =
    ap (Option.map (λ c. with_context (some (record c { run_as_user = some (pos nobody_id) })) q)) e

apply-pod_group :
    (q : Pod) (sc : PodSecurityContext)
    → q.spec.security_context ≡ some sc
    → apply_operation
        (record {
          op = "add";
          path = "/spec/securityContext/runAsGroup";
          value = number (pos nobody_id);
        })
        q
      ≡ some (with_context (some (record sc { run_as_group = some (pos nobody_id) })) q)
unfolding apply_operation locate tokens split unescape add_at
apply-pod_group q sc e =
    ap (Option.map (λ c. with_context (some (record c { run_as_group = some (pos nobody_id) })) q))
      e

apply-pod_context :
    (q : Pod)
    → apply_operation
        (record {
          op = "add";
          path = "/spec/securityContext";
          value = security_context (record {
            run_as_user = some (pos nobody_id);
            run_as_group = some (pos nobody_id);
            allow_privilege_escalation = none;
          });
        })
        q
      ≡ some (with_context (some nobody) q)
unfolding apply_operation locate tokens split unescape add_at
apply-pod_context q = refl

pub Gives-set_context :
    {pod q : Pod} {p : Patches} (setting : Setting) (context : Option PodSecurityContext)
    → Gives pod p q
    → q.spec.security_context ≡ context
    → Gives pod (set_context pod setting p context) (harden_context setting q context)
unfolding set_context harden_context
Gives-set_context {pod} {q} {p} setting none g e =
    Gives-annotate_pod context_internal_key (source_of setting) (omega arith)
      (Gives-add_operation "/spec/securityContext" _ g (apply-pod_context q) refl)
Gives-set_context {pod} {q} {p} setting (some sc) g e =
    elim (Bool-cases (is_nil sc.run_as_user && is_nil sc.run_as_group)) [
      | inl unset ↦ rw unset (
          Gives-annotate_pod context_internal_key (source_of setting) (omega arith) (
            Gives-add_operation "/spec/securityContext/runAsGroup" _
              (Gives-add_operation "/spec/securityContext/runAsUser" _ g (apply-pod_user q sc e)
                refl)
              (apply-pod_group _ (record sc { run_as_user = some (pos nobody_id) }) refl) refl))
      | inr set ↦ rw set g
    ]
