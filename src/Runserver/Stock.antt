-- ===== src/Runserver/Stock.antt =====
-- Launches that go on, and the loading of the default policies.
use mathlib.Core.Path.{subst}
use karydia.Common.{
  String, ◌≡◌, refl, sym, ap, ◌∙◌, Bool, true, false, some, List, [], ◌∷◌, arith, ◌==◌, eq_iff,
  if◌then◌else◌, inl, inr, Bool-cases,
}
use karydia.Common.Dict.{Dict, lookup, insert, lookup-insert}
use karydia.Common.Run.{Result, ok, err}
use karydia.Common.Text.{split}
use karydia.Kube.{NetworkPolicy}
use karydia.Kube.Custom.{KarydiaConfig, KarydiaConfigSpec, KarydiaNetworkPolicy}
use karydia.Controller.Policies.{string_in_slice}
use karydia.Runserver.{
  Launch, running, fatal, ◌>>=◌, or_fatal, Environment, Component, admission, policies,
  default_policy, load_policies,
}

-- What holds of a launch that goes on.
abbrev pub Goes : {A : Type 0} → (A → Type 0) → Launch A → Type 0
Goes P (running a) = P a
Goes P (fatal text e) = Unit

pub Goes-bind :
    {A B : Type 0} (P : A → Type 0) (Q : B → Type 0) (m : Launch A) (f : A → Launch B)
    → Goes P m
    → ((a : A) → P a → Goes Q (f a))
    → Goes Q (m >>= f)
Goes-bind P Q (running a) f h k = k a h
Goes-bind P Q (fatal text e) f h k = tt

pub Goes-or_fatal :
    {A : Type 0} (text : String) (r : Result A) → Goes (λ a. r ≡ ok a) (or_fatal text r)
Goes-or_fatal text (ok a) = refl
Goes-or_fatal text (err e) = tt

pub Goes-map :
    {A : Type 0} (P Q : A → Type 0) (m : Launch A) → Goes P m → ((a : A) → P a → Q a) → Goes Q m
Goes-map P Q (running a) h k = k a h
Goes-map P Q (fatal text e) h k = tt

pub Goes-if :
    {A : Type 0} (P : A → Type 0) (b : Bool) (m n : Launch A)
    → Goes P m
    → Goes P n
    → Goes P (if b then m else n)
Goes-if P true m n h k = h
Goes-if P false m n h k = k

pub Goes-inv : {A : Type 0} (P : A → Type 0) (m : Launch A) (a : A) → Goes P m → m ≡ running a → P a
Goes-inv P m a h e = subst (Goes P) e h

-- The configuration that a component works by.
abbrev pub Works : {Spec : Type 0} → KarydiaConfigSpec → Component Spec → Type 0
Works spec (admission a k) = (c : KarydiaConfig) × (k.karydia_config ≡ some c) × (c.spec ≡ spec)
Works spec (policies r) =
    (r.default_enforcement ≡ spec.enforcement)
    × (r.default_network_policy_names ≡ spec.network_policies)

module _ {Spec Cert Rest Kube Client : Type 0} (env : Environment Spec Cert Rest Kube Client)
    (client : Client) where
  -- The buffer holds policies under their own names, as the program's resources specify them.
  pub record IsStock (loaded : Dict (NetworkPolicy Spec)) : Type 0 where
    pub named : (n : String) (b : NetworkPolicy Spec) → lookup n loaded ≡ some b → b.meta.name ≡ n
    pub origin :
        (n : String) (b : NetworkPolicy Spec)
        → lookup n loaded ≡ some b
        → (p : KarydiaNetworkPolicy Spec) × (env.get_policy client n ≡ ok p) × (b.spec ≡ p.spec)

  -- Every one of the names is in the buffer.
  abbrev pub IsFull : List String → Dict (NetworkPolicy Spec) → Type 0
  IsFull names loaded =
      (n : String)
      → string_in_slice n names ≡ true
      → (b : NetworkPolicy Spec) × (lookup n loaded ≡ some b)

  IsStock-insert :
      (name : String) (p : KarydiaNetworkPolicy Spec) (loaded : Dict (NetworkPolicy Spec))
      → env.get_policy client name ≡ ok p
      → IsStock loaded
      → IsStock (insert name (default_policy env name p.spec) loaded)
  IsStock-insert name p loaded found stock =
      let made : NetworkPolicy Spec = default_policy env name p.spec in
      record {
        named = λ n b e. elim (Bool-cases (name == n)) [
          | inr other ↦ stock.named n b (sym (lookup-insert name n made loaded ∙ rw other refl) ∙ e)
          | inl same ↦
              let here : some made ≡ some b =
                sym (lookup-insert name n made loaded ∙ rw same refl) ∙ e in
              let own : made ≡ b = cc here in
              ap (λ (q : NetworkPolicy Spec). q.meta.name) (sym own) ∙ (eq_iff name n).0 same
        ];
        origin = λ n b e. elim (Bool-cases (name == n)) [
          | inr other ↦
              stock.origin n b (sym (lookup-insert name n made loaded ∙ rw other refl) ∙ e)
          | inl same ↦
              let here : some made ≡ some b =
                sym (lookup-insert name n made loaded ∙ rw same refl) ∙ e in
              let own : made ≡ b = cc here in
              (
                p,
                subst (λ m. env.get_policy client m ≡ ok p) ((eq_iff name n).0 same) found,
                ap (λ (q : NetworkPolicy Spec). q.spec) (sym own),
              )
        ];
      }

  -- Loading keeps what is loaded.
  pub record Loads (names : List String) (loaded result : Dict (NetworkPolicy Spec)) : Type 0 where
    pub stock : IsStock result
    pub full : IsFull names result
    pub keeps :
        (n : String) (b : NetworkPolicy Spec)
        → lookup n loaded ≡ some b
        → (c : NetworkPolicy Spec) × (lookup n result ≡ some c)

  Loads-cons :
      (name : String) (names : List String) (loaded result : Dict (NetworkPolicy Spec))
      (made : NetworkPolicy Spec)
      → Loads names (insert name made loaded) result
      → Loads (name ∷ names) loaded result
  unfolding string_in_slice
  Loads-cons name names loaded result made rest = record {
    stock = rest.stock;
    full = λ n h. elim (Bool-cases (name == n)) [
      | inr other ↦ rest.full n (ground arith)
      | inl same ↦ rest.keeps n made (lookup-insert name n made loaded ∙ rw same refl)
    ];
    keeps = λ n b e. elim (Bool-cases (name == n)) [
      | inr other ↦ rest.keeps n b (lookup-insert name n made loaded ∙ (rw other e))
      | inl same ↦ rest.keeps n made (lookup-insert name n made loaded ∙ rw same refl)
    ];
  }

  pub load_policies-Loads :
      (names : List String) (loaded : Dict (NetworkPolicy Spec))
      → IsStock loaded
      → Goes (Loads names loaded) (load_policies env client names loaded)
  unfolding load_policies string_in_slice
  load_policies-Loads [] loaded stock = record {
    stock = stock;
    full = λ n h. cc;
    keeps = λ n b e. (b, e);
  }
  load_policies-Loads (name ∷ names) loaded stock =
      Goes-bind (λ p. env.get_policy client name ≡ ok p) (Loads (name ∷ names) loaded) _ _
        (Goes-or_fatal _ (env.get_policy client name))
        (λ p found.
          let made : NetworkPolicy Spec = default_policy env name p.spec in
          let next = insert name made loaded in
          Goes-map (Loads names next) (Loads (name ∷ names) loaded) _
            (load_policies-Loads names next (IsStock-insert name p loaded found stock))
            (λ result rest. Loads-cons name names loaded result made rest))

  pub IsStock-empty : IsStock []
  unfolding lookup
  IsStock-empty = record { named = λ n b e. cc; origin = λ n b e. cc }

  -- A component that is ready: it works by the configuration, and a reconciler has its default policies.
  abbrev pub IsReady : KarydiaConfigSpec → Component Spec → Type 0
  IsReady spec (admission a k) = Works {Spec = Spec} spec (admission a k)
  IsReady spec (policies r) =
      Works spec (policies r)
      × IsStock r.default_network_policies
      × IsFull (split b';' spec.network_policies) r.default_network_policies
