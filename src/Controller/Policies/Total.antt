-- ===== src/Controller/Policies/Total.antt =====
-- Reconciling a policy with any API: it returns, and only the cluster changes.
use mathlib.Core.Path.{subst}
use karydia.Common.{
  String, ◌≡◌, refl, sym, ◌∙◌, true, Option, none, some, List, [], ◌∷◌, arith, ◌==◌, eq_iff, inl,
  inr, Bool-cases,
}
use karydia.Common.Run.{
  Error, returns, Result-cases, Returns, Returns-bind, Returns-if, Returns-inv,
}
use karydia.Kube.{NetworkPolicy}
use karydia.Controller.Api.{Api}
use karydia.Controller.Policies.{
  NetworkpolicyReconciler, Setting, State, buffered, in_world, wrap, create_default_network_policy,
  update_default_network_policy, reconcile_is_needed, reconcile_policy, ensure_buffered,
  fill_buffer, sync_expected, sync_network_policy, sync_namespace, expected_names, string_in_slice,
}
use karydia.Controller.Policies.Sync.{IsNamed}
use karydia.Controller.Policies.Ensure.{
  Grown, Grown-refl, Grown-trans, Ensured, ensure_buffered-Ensured,
}

module _ {Spec World : Type 0} (api : Api Spec World) where
  -- Only the cluster differs.
  abbrev pub Outer : State Spec World → State Spec World × Option Error → Type 0
  Outer s r = r.0.reconciler ≡ s.reconciler

  wrap-Outer :
      (s : State Spec World) (label : String) (r : State Spec World × Option Error)
      → Outer s r
      → Returns (Outer s) (wrap api label r)
  wrap-Outer s label (t, none) h = h
  wrap-Outer s label (t, some e) h = h

  in_world-Outer : (s : State Spec World) (r : World × Option Error) → Outer s (in_world api s r)
  in_world-Outer s (w, e) = refl

  module _ (ns name : String) (setting : Setting) (s : State Spec World) (b : NetworkPolicy Spec)
      (there : buffered api name s ≡ some b) where
    create-Outer : Returns (Outer s) (create_default_network_policy api ns name setting s)
    unfolding create_default_network_policy
    create-Outer = rw there refl

    update-Outer : Returns (Outer s) (update_default_network_policy api ns name s)
    unfolding update_default_network_policy
    update-Outer = rw there refl

    needed-Returns :
        (actual : NetworkPolicy Spec)
        → Returns (λ _. Unit {0}) (reconcile_is_needed api actual name s)
    unfolding reconcile_is_needed
    needed-Returns actual = rw there tt

    pub reconcile-Outer :
        (label : String) → Returns (Outer s) (reconcile_policy api label ns name setting s)
    unfolding reconcile_policy
    reconcile-Outer label = elim (Result-cases (api.list_policy ns name s.world)) [
      | inr (e, failed) ↦
          rw (failed, reconcile_policy)
            (Returns-if (Outer s) e.is_not_found _ _
              (Returns-bind (Outer s) (Outer s) _ _ create-Outer (wrap-Outer s ns)) refl)
      | inl (p, found) ↦
          rw (found, reconcile_policy)
            (Returns-bind (λ _. Unit {0}) (Outer s) _ _ (needed-Returns p)
              (λ needed _.
                Returns-if (Outer s) needed _ _
                  (Returns-bind (Outer s) (Outer s) _ _ update-Outer (wrap-Outer s label)) refl))
    ]

  abbrev pub Named : State Spec World × Option Error → Type 0
  Named r = IsNamed api r.0

  Outer-Named :
      (s : State Spec World)
      → IsNamed api s
      → (r : State Spec World × Option Error) → Outer s r
      → Named r
  Outer-Named s named r same =
      subst
        (λ (reconciler : NetworkpolicyReconciler Spec).
          IsNamed api (record { reconciler = reconciler; world = r.0.world }))
        (sym same) named

  reconcile-Named :
      (label ns name : String) (setting : Setting) (s : State Spec World) (b : NetworkPolicy Spec)
      → IsNamed api s
      → buffered api name s ≡ some b
      → Returns Named (reconcile_policy api label ns name setting s)
  reconcile-Named label ns name setting s b named there =
      let (r, ran, same) =
        Returns-inv (Outer s) _ (reconcile-Outer ns name setting s b there label) in
      subst (Returns Named) (sym ran) (Outer-Named s named r same)

  -- What filling the buffer leaves: the cluster as it was, and, without an error, all names buffered.
  pub record Filled (names : List String) (s : State Spec World)
      (r : State Spec World × Option Error) : Type 0 where
    pub grown : Grown api s r.0
    pub same_world : r.0.world ≡ s.world
    pub named : IsNamed api r.0
    pub there :
        r.1 ≡ none
        → (n : String) → string_in_slice n names ≡ true
        → (b : NetworkPolicy Spec) × (buffered api n r.0 ≡ some b)

  pub fill_buffer-Filled :
      (names : List String) (s : State Spec World)
      → IsNamed api s
      → Filled names s (fill_buffer api names s)
  unfolding fill_buffer string_in_slice
  fill_buffer-Filled [] s named = record {
    grown = Grown-refl api s;
    same_world = refl;
    named = named;
    there = λ fine n h. cc;
  }
  fill_buffer-Filled (name ∷ names) s named =
      settle (fill_buffer-Filled names) (ensure_buffered api name s)
        (ensure_buffered-Ensured api name s named)
    where
      settle :
          ((t : State Spec World) → IsNamed api t → Filled names t (fill_buffer api names t))
          → (e : State Spec World × Option Error) → Ensured api name s e
          → Filled
              (name ∷ names)
              s
              (elim e.1 [ none ↦ fill_buffer api names e.0 | some failed ↦ (e.0, some failed) ])
      settle again (t, none) first =
          let rest = again t first.named in
          record {
            grown = Grown-trans api first.grown rest.grown;
            same_world = rest.same_world ∙ first.same_world;
            named = rest.named;
            there = λ fine n h. elim (Bool-cases (name == n)) [
              | inr later ↦ rest.there fine n (ground arith)
              | inl now ↦
                  let (b, found) = first.there refl in
                  (
                    b,
                    rest.grown.keeps_entries n b
                        (subst (λ m. buffered api m t ≡ some b) ((eq_iff name n).0 now) found),
                  )
            ];
          }
      settle again (t, some x) first = record {
        grown = first.grown;
        same_world = first.same_world;
        named = first.named;
        there = λ fine n h. cc;
      }

  sync_expected-Named :
      (ns name : String) (setting : Setting) (s : State Spec World)
      → IsNamed api s
      → ((n : String)
          → string_in_slice n (expected_names setting) ≡ true
          → (b : NetworkPolicy Spec) × (buffered api n s ≡ some b))
      → Returns Named (sync_expected api ns name setting s)
  unfolding sync_expected
  sync_expected-Named ns name setting s named full =
      elim (Bool-cases (string_in_slice name (expected_names setting))) [
        | inr other ↦ rw other named
        | inl wanted ↦
            let (b, there) = full name wanted in
            rw wanted (
              rw there (
                Returns-if Named (name == b.meta.name) _ _
                  (reconcile-Named name ns name setting s b named there) named))
      ]

  -- syncNetworkPolicy returns, whatever the API answers.
  pub sync_network_policy-Named :
      (ns name : String) (setting : Setting) (s : State Spec World)
      → IsNamed api s
      → Returns Named (sync_network_policy api ns name setting s)
  unfolding sync_network_policy
  sync_network_policy-Named ns name setting s named =
      settle (fill_buffer api (expected_names setting) s)
        (fill_buffer-Filled (expected_names setting) s named)
    where
      settle :
          (e : State Spec World × Option Error)
          → Filled (expected_names setting) s e
          → Returns Named (elim e.1 [
            | none ↦ sync_expected api ns name setting e.0
            | some failed ↦ returns (e.0, none)
          ])
      settle (t, none) filled =
          sync_expected-Named ns name setting t filled.named (filled.there refl)
      settle (t, some x) filled = filled.named

  -- syncNamespace returns, whatever the API answers.
  pub sync_namespace-Named :
      (name ns : String) (setting : Setting) (s : State Spec World)
      → IsNamed api s
      → Returns Named (sync_namespace api name ns setting s)
  unfolding sync_namespace
  sync_namespace-Named name ns setting s named =
      settle (ensure_buffered api name s) (ensure_buffered-Ensured api name s named)
    where
      settle :
          (e : State Spec World × Option Error)
          → Ensured api name s e
          → Returns Named (elim e.1 [
            | none ↦ reconcile_policy api ns ns name setting e.0
            | some failed ↦ returns (e.0, none)
          ])
      settle (t, none) ensured =
          let (b, there) = ensured.there refl in
          reconcile-Named ns ns name setting t b ensured.named there
      settle (t, some x) ensured = ensured.named
