-- ===== src/Controller/Handlers/Round.antt =====
-- The loop of syncNamespaceHandler over the names, with reliable calls.
use mathlib.Core.Path.{subst}
use karydia.Common.{
  String, ◌≡◌, refl, sym, ap, ◌∙◌, true, false, ◌&&◌, Option, none, some, List, [], ◌∷◌, arith,
  ◌==◌, eq_iff, inl, inr, Bool-cases,
}
use karydia.Common.Run.{Error, Run, returns}
use karydia.Kube.{NetworkPolicy}
use karydia.Controller.Api.{Api, IsReliable}
use karydia.Controller.Policies.{
  Setting, State, buffered, reconcile_policy, ensure_buffered, sync_namespace, string_in_slice,
}
use karydia.Controller.Handlers.{sync_each}
use karydia.Controller.Policies.Sync.{IsNamed, Matches, Synced, reconcile-Synced}
use karydia.Controller.Policies.Ensure.{
  Grown, Grown-refl, Grown-trans, Ensured, ensure_buffered-Ensured,
}

module _ {Spec World : Type 0} (api : Api Spec World)
    (policy : World → String → String → Option (NetworkPolicy Spec)) where
  -- What a round over `names` leaves: every name of the list that is in the buffer is in the namespace
  -- with the buffer's specification, and other policies are as they were.
  pub record Rounded (names : List String) (ns : String) (s s' : State Spec World) : Type 0 where
    pub grown : Grown api s s'
    pub named : IsNamed api s'
    pub untouched :
        (n : String) → string_in_slice n names ≡ false → buffered api n s' ≡ buffered api n s
    pub matching :
        (n : String) (b : NetworkPolicy Spec)
        → string_in_slice n names ≡ true
        → buffered api n s' ≡ some b
        → Matches api policy ns n b s'.world
    pub others :
        (ns' n' : String)
        → (ns == ns' && string_in_slice n' names) ≡ false
        → policy s'.world ns' n' ≡ policy s.world ns' n'

  Rounded-nil : (ns : String) (s : State Spec World) → IsNamed api s → Rounded [] ns s s
  unfolding string_in_slice
  Rounded-nil ns s named = record {
    grown = Grown-refl api s;
    named = named;
    untouched = λ n h. refl;
    matching = λ n b h e. cc;
    others = λ ns' n' h. refl;
  }

  -- One name, then the rest. A name that stands in the rest too is settled there; any other is left
  -- alone by the rest.
  Rounded-cons :
      (name : String) (names : List String) (ns : String) (s t u : State Spec World)
      → Rounded (name ∷ []) ns s t
      → Rounded names ns t u
      → Rounded (name ∷ names) ns s u
  unfolding string_in_slice
  Rounded-cons name names ns s t u first rest = record {
    grown = Grown-trans api first.grown rest.grown;
    named = rest.named;
    untouched = λ n h. rest.untouched n (ground arith) ∙ first.untouched n (ground arith);
    matching = λ n b h e. elim (Bool-cases (string_in_slice n names)) [
      | inl again ↦ rest.matching n b again e
      | inr once ↦
          let (p, found, same) =
            first.matching n b (ground arith) (sym (rest.untouched n once) ∙ e) in
          (p, rest.others ns n (ground arith) ∙ found, same)
    ];
    others = λ ns' n' h. rest.others ns' n' (ground arith) ∙ first.others ns' n' (ground arith);
  }

  module _ (reliable : IsReliable api policy) where
    Synced-Rounded :
        (name ns : String) (s t : State Spec World) (b : NetworkPolicy Spec)
        {run : Run (State Spec World × Option Error)}
        → Ensured api name s (t, none)
        → buffered api name t ≡ some b
        → (synced : Synced api policy ns name b t run)
        → Rounded (name ∷ []) ns s (record t { world = synced.after })
    unfolding string_in_slice
    Synced-Rounded name ns s t b ensured there synced = record {
      grown = record {
        keeps_entries = ensured.grown.keeps_entries;
        same_enforcement = ensured.grown.same_enforcement;
        same_names = ensured.grown.same_names;
        same_excludes = ensured.grown.same_excludes;
      };
      named = ensured.named;
      untouched = λ n h. ensured.other_entries n (ground arith);
      matching = λ n c h e.
          subst (λ m. buffered api m t ≡ some c → Matches api policy ns m c synced.after)
            ((eq_iff name n).0 (ground arith))
            (λ e'.
              let same : b ≡ c = cc (there, e') in
              subst (λ d. Matches api policy ns name d synced.after) same synced.matching)
            e;
      others = λ ns' n' h.
          synced.keeps ns' n' (ground arith) ∙ ap (λ w. policy w ns' n') ensured.same_world;
    }

    failed-Rounded :
        (name ns : String) (s t : State Spec World) (x : Error)
        → Ensured api name s (t, some x)
        → Rounded (name ∷ []) ns s t
    unfolding string_in_slice
    failed-Rounded name ns s t x ensured = record {
      grown = ensured.grown;
      named = ensured.named;
      untouched = λ n h. ensured.other_entries n (ground arith);
      matching = λ n b h e. absurd (
          subst (λ m. buffered api m t ≡ some b → ⊥) ((eq_iff name n).0 (ground arith))
            (λ e'. cc (ensured.missing (λ k. cc))) e);
      others = λ ns' n' h. ap (λ w. policy w ns' n') ensured.same_world;
    }

    -- One name of the round.
    sync_namespace-Rounded :
        (name ns : String) (setting : Setting) (s : State Spec World)
        → IsNamed api s
        → (r : State Spec World × Option Error) × (sync_namespace api name ns setting s ≡ returns r)
          × Rounded (name ∷ []) ns s r.0
    unfolding sync_namespace
    sync_namespace-Rounded name ns setting s named =
        settle (ensure_buffered api name s) (ensure_buffered-Ensured api name s named)
      where
        settle :
            (e : State Spec World × Option Error)
            → Ensured api name s e
            → (r : State Spec World × Option Error) × (elim e.1 [
              | none ↦ reconcile_policy api ns ns name setting e.0
              | some failed ↦ returns (e.0, none)
            ]
                ≡ returns r)
              × Rounded (name ∷ []) ns s r.0
        settle (t, none) ensured =
            let (b, there) = ensured.there refl in
            let synced =
              reconcile-Synced api policy reliable ns ns name setting t b
                (ensured.named name b there) there in
            (_, synced.run_lem, Synced-Rounded name ns s t b ensured there synced)
        settle (t, some x) ensured = ((t, none), refl, failed-Rounded name ns s t x ensured)

    -- The whole round.
    pub sync_each-Rounded :
        (names : List String) (ns : String) (setting : Setting) (s : State Spec World)
        → IsNamed api s
        → (s' : State Spec World) × (sync_each api names ns setting s ≡ returns s')
          × Rounded names ns s s'
    unfolding sync_each
    sync_each-Rounded [] ns setting s named = (s, refl, Rounded-nil ns s named)
    sync_each-Rounded (name ∷ names) ns setting s named =
        let (r, e, first) = sync_namespace-Rounded name ns setting s named in
        let (u, e', rest) = sync_each-Rounded names ns setting r.0 first.named in
        (u, rw e e', Rounded-cons name names ns s r.0 u first rest)
