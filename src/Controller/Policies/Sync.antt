-- ===== src/Controller/Policies/Sync.antt =====
-- One policy in one namespace: what reconciling it does.
use Prim.Native.String
use mathlib.Core.Path.{subst}
use karydia.Common.{
  String, ◌≡◌, ◌↔◌, refl, true, false, ◌&&◌, Option, none, some, [], ◌∷◌, arith, ◌==◌, inl, inr,
  Bool-cases, Option-cases,
}
use karydia.Common.Run.{Error, Run, returns}
use karydia.Kube.{NetworkPolicy}
use karydia.Kube.Review.{Bytes}
use karydia.Controller.Api.{Api, IsReliable}
use karydia.Controller.Policies.{
  Setting, State, bytes_equal, buffered, create_default_network_policy,
  update_default_network_policy, reconcile_is_needed, reconcile_policy, wrap, in_world,
}

pub bytes_equal_iff : (a b : Bytes) → (bytes_equal a b ≡ true) ↔ (a ≡ b)
unfolding bytes_equal
bytes_equal_iff [] [] = ground arith
bytes_equal_iff [] (b ∷ bs) = ground arith
bytes_equal_iff (a ∷ rest) [] = ground arith
bytes_equal_iff (a ∷ rest) (b ∷ bs) = ground (arith, bytes_equal_iff rest bs)

module _ {Spec World : Type 0} (api : Api Spec World) where
  -- The policies of the buffer stand under their own names.
  abbrev pub IsNamed : State Spec World → Type 0
  IsNamed s =
      (name : String) (b : NetworkPolicy Spec) → buffered api name s ≡ some b → b.meta.name ≡ name

module _ {Spec World : Type 0} (api : Api Spec World)
    (policy : World → String → String → Option (NetworkPolicy Spec)) where
  -- The cluster holds a policy with the specification of `b`, as far as the bytes tell.
  abbrev pub Matches : String → String → NetworkPolicy Spec → World → Type 0
  Matches ns name b w =
      (p : NetworkPolicy Spec) × (policy w ns name ≡ some p)
      × (api.marshal p.spec ≡ api.marshal b.spec)

  -- Only the policy `name` of the namespace `ns` differs.
  abbrev pub Keeps : String → String → World → World → Type 0
  Keeps ns name w w' =
      (ns' n' : String) → (ns == ns' && name == n') ≡ false → policy w' ns' n' ≡ policy w ns' n'

  -- The outcome of a call that brings the policy `name` of `ns` to the state of `b`.
  pub record Synced (ns name : String) (b : NetworkPolicy Spec) (s : State Spec World)
      (run : Run (State Spec World × Option Error)) : Type 0 where
    pub after : World
    pub run_lem : run ≡ returns (record s { world = after }, none)
    pub matching : Matches ns name b after
    pub keeps : Keeps ns name s.world after

  wrap-in_world :
      (label : String) (s : State Spec World) (r : World × Option Error)
      → r.1 ≡ none
      → wrap api label (in_world api s r) ≡ returns (record s { world = r.0 }, none)
  wrap-in_world label s (w, none) e = refl
  wrap-in_world label s (w, some failed) e = cc

  module _ (reliable : IsReliable api policy) (label ns : String) (setting : Setting)
      (s : State Spec World) (b : NetworkPolicy Spec)
      (there : buffered api b.meta.name s ≡ some b) where
    abbrev own_name : String
    own_name = b.meta.name

    abbrev made : NetworkPolicy Spec
    made = record b {
      meta = record b.meta {
        namespace = ns;
        annotations =
            (
              "karydia.gardener.cloud/networkPolicy.internal",
              String.◌++◌ setting.src (String.◌++◌ "/" own_name),
            )
            ∷ [];
      };
    }

    create-Synced :
        policy s.world ns own_name ≡ none
        → Synced ns own_name b s (reconcile_policy api label ns own_name setting s)
    unfolding reconcile_policy create_default_network_policy
    create-Synced missing =
        let (e, failed, not_found) = reliable.list_missing ns own_name s.world missing in
        let (fine, stands) = reliable.created ns made s.world missing in
        record {
          after = (api.create_policy ns made s.world).0;
          run_lem =
              rw (failed, reconcile_policy) (rw not_found (rw there (wrap-in_world ns s _ fine)));
          matching = (made, stands, refl);
          keeps = λ ns' n' other. reliable.framed.create_frame ns made s.world ns' n' other;
        }

    abbrev desired : NetworkPolicy Spec
    desired = record b { meta = record b.meta { namespace = ns } }

    update-Synced :
        (p : NetworkPolicy Spec)
        → policy s.world ns own_name ≡ some p
        → bytes_equal (api.marshal p.spec) (api.marshal b.spec) ≡ false
        → Synced ns own_name b s (reconcile_policy api label ns own_name setting s)
    unfolding reconcile_policy update_default_network_policy reconcile_is_needed
    update-Synced p found differs =
        let (fine, stands) = reliable.updated ns desired p s.world found in
        record {
          after = (api.update_policy ns desired s.world).0;
          run_lem =
              rw (reliable.list_found ns own_name s.world p found, reconcile_policy)
                (rw there (rw differs (wrap-in_world label s _ fine)));
          matching = (desired, stands, refl);
          keeps = λ ns' n' other. reliable.framed.update_frame ns desired s.world ns' n' other;
        }

    keep-Synced :
        (p : NetworkPolicy Spec)
        → policy s.world ns own_name ≡ some p
        → bytes_equal (api.marshal p.spec) (api.marshal b.spec) ≡ true
        → Synced ns own_name b s (reconcile_policy api label ns own_name setting s)
    unfolding reconcile_policy reconcile_is_needed
    keep-Synced p found same = record {
      after = s.world;
      run_lem = ground (arith, reliable.list_found ns own_name s.world p found);
      matching = (p, found, (bytes_equal_iff _ _).0 same);
      keeps = λ ns' n' other. refl;
    }

    reconcile-Synced_own : Synced ns own_name b s (reconcile_policy api label ns own_name setting s)
    reconcile-Synced_own = elim (Option-cases (policy s.world ns own_name)) [
      | inl missing ↦ create-Synced missing
      | inr (p, found) ↦ elim (Bool-cases (bytes_equal (api.marshal p.spec) (api.marshal b.spec))) [
        | inl same ↦ keep-Synced p found same
        | inr differs ↦ update-Synced p found differs
      ]
    ]

  -- With reliable calls, reconciling a policy of the buffer succeeds, leaves it in the namespace with
  -- the buffer's specification, and changes no other policy and nothing of the reconciler.
  pub reconcile-Synced :
      (reliable : IsReliable api policy) (label ns name : String) (setting : Setting)
      (s : State Spec World) (b : NetworkPolicy Spec)
      → b.meta.name ≡ name
      → buffered api name s ≡ some b
      → Synced ns name b s (reconcile_policy api label ns name setting s)
  reconcile-Synced reliable label ns name setting s b named =
      subst
        (λ n.
          buffered api n s ≡ some b → Synced ns n b s (reconcile_policy api label ns n setting s))
        named (λ there. reconcile-Synced_own reliable label ns setting s b there)
