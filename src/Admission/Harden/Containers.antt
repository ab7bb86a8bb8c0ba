-- ===== src/Admission/Harden/Containers.antt =====
-- The patches of the containers' security contexts.
use mathlib.Core.List.{append_assoc}
use mathlib.Core.Option
use mathlib.Core.Path.{subst}
use karydia.Common.{
  ℕ, suc, true, false, ◌≡◌, refl, sym, ◌∙◌, ap, length-append, Option, none, some, List, [], ◌∷◌,
  ◌++◌, map, arith, is_nil, length, Bool-cases, inl, inr,
}
use karydia.Common.Decimal.{itoa}
use karydia.Common.Text.{concat}
use karydia.Kube.{Pod, Container, SecurityContext}
use karydia.Admission.Types.{flag, security_context, Patches}
use karydia.Admission.Patch.{
  allow_escalation, with_containers, add_at, apply_operation, update_at-append,
}
use karydia.Admission.Harden.{no_escalation, harden_container_context, harden_container}
use karydia.Admission.Paths.{locate-container_context, locate-container_escalation}
use karydia.Admission.Pod.{mutate_container, mutate_containers}
use karydia.Admission.Harden.Gives.{Gives, Gives-add_operation}

apply-container_context :
    (ds cs : List Container) (c : Container) (q : Pod)
    → c.security_context ≡ none
    → apply_operation
        (record {
          op = "add";
          path = concat ("/spec/containers/" ∷ itoa (length ds) ∷ "/securityContext" ∷ []);
          value = security_context no_escalation;
        })
        (with_containers (ds ++ c ∷ cs) q)
      ≡ some (with_containers (ds ++ harden_container c ∷ cs) q)
unfolding apply_operation add_at harden_container_context
apply-container_context ds cs c q e = rw (
  locate-container_context (length ds),
  update_at-append ds cs c (record c { security_context = some no_escalation })
      (λ d. some (record d { security_context = some no_escalation })) refl,
  e,
)

apply-container_escalation :
    (ds cs : List Container) (c : Container) (sc : SecurityContext) (q : Pod)
    → c.security_context ≡ some sc
    → is_nil sc.allow_privilege_escalation ≡ true
    → apply_operation
        (record {
          op = "add";
          path = concat (
              "/spec/containers/"
              ∷ itoa (length ds)
              ∷ "/securityContext/allowPrivilegeEscalation"
              ∷ []);
          value = flag false;
        })
        (with_containers (ds ++ c ∷ cs) q)
      ≡ some (with_containers (ds ++ harden_container c ∷ cs) q)
unfolding apply_operation add_at harden_container_context
apply-container_escalation ds cs c sc q e unset = rw (
  locate-container_escalation (length ds),
  update_at-append ds cs c
      (record c { security_context = some (record sc { allow_privilege_escalation = some false }) })
      (allow_escalation false)
      (ap
        (Option.map (λ d. record c {
          security_context = some (record d { allow_privilege_escalation = some false });
        }))
        e),
  e,
  unset,
)

harden_container_set :
    (c : Container) (sc : SecurityContext)
    → c.security_context ≡ some sc
    → is_nil sc.allow_privilege_escalation ≡ false
    → harden_container c ≡ c
unfolding harden_container_context
harden_container_set c sc e set =
    ap (λ (x : Option SecurityContext). record c { security_context = x })
      (ap (λ x. some (harden_container_context x)) e ∙ rw set (sym e))

Gives-mutate_container :
    {pod : Pod} {p : Patches} (q : Pod) (ds cs : List Container) (c : Container)
    (context : Option SecurityContext)
    → c.security_context ≡ context
    → Gives pod p (with_containers (ds ++ c ∷ cs) q)
    → Gives pod
        (mutate_container (length ds) context p)
        (with_containers (ds ++ harden_container c ∷ cs) q)
unfolding mutate_container
Gives-mutate_container q ds cs c none e g =
    Gives-add_operation _ _ g (apply-container_context ds cs c q e) refl
Gives-mutate_container {pod} {p} q ds cs c (some sc) e g =
    elim (Bool-cases (is_nil sc.allow_privilege_escalation)) [
      | inl unset ↦
          rw unset
            (Gives-add_operation _ _ g (apply-container_escalation ds cs c sc q e unset) refl)
      | inr set ↦ rw set (
          subst (λ (d : Container). Gives pod p (with_containers (ds ++ d ∷ cs) q))
            (sym (harden_container_set c sc e set)) g)
    ]

-- The loop over the containers behind `ds`, from the index that is the length of `ds`.
pub Gives-mutate_containers :
    {pod : Pod} (q : Pod) (ds cs : List Container) (i : ℕ) {p : Patches}
    → i ≡ length ds
    → Gives pod p (with_containers (ds ++ cs) q)
    → Gives pod (mutate_containers i cs p) (with_containers (ds ++ map harden_container cs) q)
unfolding mutate_containers
Gives-mutate_containers q ds [] i e g = g
Gives-mutate_containers {pod} q ds (c ∷ cs) i {p} e g =
    let d : Container = harden_container c in
    let step : Gives pod (mutate_container i c.security_context p)
        (with_containers (ds ++ d ∷ cs) q) =
      rw e (Gives-mutate_container q ds cs c c.security_context refl g) in
    subst
      (λ (xs : List Container).
        Gives pod (mutate_containers (suc i) cs (mutate_container i c.security_context p))
          (with_containers xs q))
      (append_assoc ds (d ∷ []) (map harden_container cs))
      (Gives-mutate_containers q (ds ++ d ∷ []) cs (suc i)
        (omega (arith, length-append ds (d ∷ [])))
        (subst
          (λ (xs : List Container).
            Gives pod (mutate_container i c.security_context p) (with_containers xs q))
          (sym (append_assoc ds (d ∷ []) cs)) step))
