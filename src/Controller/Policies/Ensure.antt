-- ===== src/Controller/Policies/Ensure.antt =====
-- The test that a name is buffered, and updateBuffer where it is not.
use mathlib.Core.Path.{subst}
use karydia.Common.{
  String, ◌≡◌, ◌≢◌, refl, sym, ◌∙◌, false, Option, none, some, arith, ◌==◌, eq_iff, if◌then◌else◌,
  inl, inr, Option-cases,
}
use karydia.Common.Dict.{lookup-insert, lookup-insert_self}
use karydia.Common.Run.{Error, ok, err, Result-cases}
use karydia.Kube.{NetworkPolicy}
use karydia.Kube.Custom.{KarydiaNetworkPolicy}
use karydia.Controller.Api.{Api}
use karydia.Controller.Policies.{
  State, buffered, named_policy, remember, update_buffer, load_failure, ensure_buffered,
}
use karydia.Controller.Policies.Sync.{IsNamed}

module _ {Spec World : Type 0} (api : Api Spec World) where
  -- The buffer has only gained entries, and nothing else of the reconciler changed.
  pub record Grown (s s' : State Spec World) : Type 0 where
    pub keeps_entries :
        (n : String) (b : NetworkPolicy Spec)
        → buffered api n s ≡ some b
        → buffered api n s' ≡ some b
    pub same_enforcement : s'.default_enforcement ≡ s.default_enforcement
    pub same_names : s'.default_network_policy_names ≡ s.default_network_policy_names
    pub same_excludes : s'.default_network_policy_excludes ≡ s.default_network_policy_excludes

  pub Grown-refl : (s : State Spec World) → Grown s s
  Grown-refl s = record {
    keeps_entries = λ n b e. e;
    same_enforcement = refl;
    same_names = refl;
    same_excludes = refl;
  }

  pub Grown-trans : {s t u : State Spec World} → Grown s t → Grown t u → Grown s u
  Grown-trans g h = record {
    keeps_entries = λ n b e. h.keeps_entries n b (g.keeps_entries n b e);
    same_enforcement = h.same_enforcement ∙ g.same_enforcement;
    same_names = h.same_names ∙ g.same_names;
    same_excludes = h.same_excludes ∙ g.same_excludes;
  }

  -- What making sure that a name is buffered leaves: the cluster as it was, and, without an error, the
  -- name in the buffer.
  pub record Ensured (name : String) (s : State Spec World) (r : State Spec World × Option Error)
      : Type 0 where
    pub grown : Grown s r.0
    pub same_world : r.0.world ≡ s.world
    pub named : IsNamed api r.0
    pub other_entries : (n : String) → (name == n) ≡ false → buffered api n r.0 ≡ buffered api n s
    pub there : r.1 ≡ none → (b : NetworkPolicy Spec) × (buffered api name r.0 ≡ some b)
    pub missing : r.1 ≢ none → buffered api name r.0 ≡ none

  -- The three outcomes of `ensure_buffered`.
  found-Ensured :
      (name : String) (s : State Spec World) (b : NetworkPolicy Spec)
      → IsNamed api s
      → buffered api name s ≡ some b
      → Ensured name s (s, none)
  found-Ensured name s b named e = record {
    grown = Grown-refl s;
    same_world = refl;
    named = named;
    other_entries = λ n h. refl;
    there = λ _. (b, e);
    missing = λ h. absurd (h refl);
  }

  failed-Ensured :
      (name : String) (s : State Spec World) (e : Error)
      → IsNamed api s
      → buffered api name s ≡ none
      → Ensured name s (s, some e)
  failed-Ensured name s e named nowhere = record {
    grown = Grown-refl s;
    same_world = refl;
    named = named;
    other_entries = λ n h. refl;
    there = λ h. cc;
    missing = λ h. nowhere;
  }

  buffered-remember :
      (name n : String) (p : NetworkPolicy Spec) (s : State Spec World)
      → buffered api n (remember api name p s) ≡ (if name == n then some p else buffered api n s)
  buffered-remember name n p s = lookup-insert name n p s.default_network_policies

  loaded-Ensured :
      (name : String) (s : State Spec World) (spec : Spec)
      → IsNamed api s
      → buffered api name s ≡ none
      → Ensured name s (remember api name (named_policy api name spec) s, none)
  loaded-Ensured name s spec named nowhere =
      let made : NetworkPolicy Spec = named_policy api name spec in
      record {
        grown = record {
          keeps_entries = λ n b e. ground (arith, buffered-remember name n made s, eq_iff name n);
          same_enforcement = refl;
          same_names = refl;
          same_excludes = refl;
        };
        same_world = refl;
        named = λ n b e. ground (arith, buffered-remember name n made s, eq_iff name n, named n b);
        other_entries = λ n h. buffered-remember name n made s ∙ rw h;
        there = λ _. (made, lookup-insert_self name made s.default_network_policies);
        missing = λ h. absurd (h refl);
      }

  ensure_buffered-found :
      (name : String) (s : State Spec World) (b : NetworkPolicy Spec)
      → buffered api name s ≡ some b
      → ensure_buffered api name s ≡ (s, none)
  unfolding ensure_buffered
  ensure_buffered-found name s b e = ground (arith, e)

  ensure_buffered-nowhere :
      (name : String) (s : State Spec World)
      → buffered api name s ≡ none
      → ensure_buffered api name s ≡ update_buffer api name s
  unfolding ensure_buffered
  ensure_buffered-nowhere name s e = ground (arith, e)

  update_buffer-failed :
      (name : String) (s : State Spec World) (e : Error)
      → api.get_karydia_policy name s.world ≡ err e
      → update_buffer api name s ≡ (s, some (load_failure name))
  unfolding update_buffer
  update_buffer-failed name s e failed = rw (failed, update_buffer) refl

  update_buffer-loaded :
      (name : String) (s : State Spec World) (p : KarydiaNetworkPolicy Spec)
      → api.get_karydia_policy name s.world ≡ ok p
      → update_buffer api name s ≡ (remember api name (named_policy api name p.spec) s, none)
  unfolding update_buffer
  update_buffer-loaded name s p loaded = rw (loaded, update_buffer) refl

  pub ensure_buffered-Ensured :
      (name : String) (s : State Spec World)
      → IsNamed api s
      → Ensured name s (ensure_buffered api name s)
  ensure_buffered-Ensured name s named = elim (Option-cases (buffered api name s)) [
    | inr (b, e) ↦
        subst (Ensured name s) (sym (ensure_buffered-found name s b e))
          (found-Ensured name s b named e)
    | inl nowhere ↦
        subst (Ensured name s) (sym (ensure_buffered-nowhere name s nowhere))
          (elim (Result-cases (api.get_karydia_policy name s.world)) [
            | inr (x, failed) ↦
                subst (Ensured name s) (sym (update_buffer-failed name s x failed))
                  (failed-Ensured name s (load_failure name) named nowhere)
            | inl (p, loaded) ↦
                subst (Ensured name s) (sym (update_buffer-loaded name s p loaded))
                  (loaded-Ensured name s p.spec named nowhere)
          ])
  ]
