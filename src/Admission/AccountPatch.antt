-- ===== src/Admission/AccountPatch.antt =====
-- What a patch of the plugin does to a service account, by the `add` operations of RFC 6902, and the account
-- that it gives.
use karydia.Common.{
  String, Bool, false, ◌&&◌, ◌||◌, ◌≡◌, refl, sym, ◌∙◌, ap, Option, none, some, List, [], ◌∷◌,
  arith, ◌==◌, eq_iff, is_nil, if◌then◌else◌, inl, inr, Bool-cases,
}
use mathlib.Core.Path.{subst}
use karydia.Common.Dict.{Dict, insert, insert-empty, is_empty}
use karydia.Common.Pointer.{tokens, unescape}
use karydia.Common.Text.{concat, split, replace}
use karydia.Kube.{ServiceAccount}
use karydia.Admission.Types.{Setting, PatchValue, text, flag, text_map, PatchOperation, no_patches}
use karydia.Admission.ServiceAccount.{
  annotate_service_account, automount_internal_key, deny_automount,
  mutate_service_account_token_mount, validate_service_account_token_mount, service_account_patches,
  service_account_errors,
}

-- The places of an account.
pub data Place : Type 0 where
  automount : Place
  all_annotations : Place
  one_annotation : String → Place

unfoldable pub place_of : List String → Option Place
place_of (a ∷ []) = if a == "automountServiceAccountToken" then some automount else none
place_of (a ∷ b ∷ []) = if a == "metadata" && b == "annotations" then some all_annotations else none
place_of (a ∷ b ∷ c ∷ []) =
    if a == "metadata" && b == "annotations" then some (one_annotation c) else none
place_of _ = none

abbrev pub with_account_annotations : Dict String → ServiceAccount → ServiceAccount
with_account_annotations m s = record s { meta = record s.meta { annotations = m } }

-- Annotations that are empty are left out of an account's JSON form.
unfoldable pub add_to : Place → PatchValue → ServiceAccount → Option ServiceAccount
add_to automount (flag b) s = some (record s { automount_service_account_token = some b })
add_to all_annotations (text_map m) s = some (with_account_annotations m s)
add_to (one_annotation k) (text v) s =
    if is_empty s.meta.annotations
    then none
    else some (with_account_annotations (insert k v s.meta.annotations) s)
add_to _ _ s = none

infixl 5 ◌>>=◌
abbrev pub ◌>>=◌ : {A B : Type 0} → Option A → (A → Option B) → Option B
none >>= f = none
some a >>= f = f a

unfoldable pub apply_to_account : List PatchOperation → ServiceAccount → Option ServiceAccount
apply_to_account [] s = some s
apply_to_account (o ∷ os) s =
    (if o.op == "add" then (place_of (tokens o.path) >>= λ place. add_to place o.value s) else none)
    >>= apply_to_account os

-- The account as the plugin means it: if the setting is about it and it says nothing itself, its token is
-- not mounted, and an annotation says where that came from.
abbrev pub is_concerned : Setting → ServiceAccount → Bool
is_concerned setting s =
    is_nil s.automount_service_account_token
    && (setting.value == "change-all"
        || setting.value == "change-default" && s.meta.name == "default")

unfoldable pub harden_account : Setting → ServiceAccount → ServiceAccount
harden_account setting s =
    if is_concerned setting s
    then record s {
      automount_service_account_token = some false;
      meta = record s.meta {
        annotations =
            insert automount_internal_key (concat (setting.src ∷ "/" ∷ setting.value ∷ []))
              s.meta.annotations;
      };
    }
    else s

-- Which operations there are.
service_account_patches-cases :
    (s : ServiceAccount) (setting : Setting)
    → service_account_patches s setting
      ≡ (if is_concerned setting s then deny_automount s setting no_patches else no_patches)
unfolding service_account_patches mutate_service_account_token_mount
service_account_patches-cases s setting = ground (
  arith,
  eq_iff setting.value "",
  eq_iff setting.value "change-default",
  eq_iff setting.value "change-all",
  eq_iff "" "change-default",
  eq_iff "" "change-all",
  eq_iff "change-all" "change-default",
)

deny_automount-apply :
    (s : ServiceAccount) (setting : Setting)
    → let value = concat (setting.src ∷ "/" ∷ setting.value ∷ []) in
      apply_to_account (deny_automount s setting no_patches).operations s
      ≡ some (record s {
        automount_service_account_token = some false;
        meta = record s.meta {
          annotations = insert automount_internal_key value s.meta.annotations;
        };
      })
unfolding apply_to_account deny_automount annotate_service_account add_to place_of tokens split
    replace unescape insert
deny_automount-apply s setting = elim (Bool-cases (is_empty s.meta.annotations)) [
  | inl empty ↦
      let value = concat (setting.src ∷ "/" ∷ setting.value ∷ []) in
      rw empty (rw (insert-empty automount_internal_key value s.meta.annotations empty) refl)
  | inr full ↦ rw full (rw full refl)
]

-- Applied by the rules of RFC 6902, the patch of a service account succeeds and yields the hardened account:
-- its token is not mounted, the annotation says which setting asked for that, and no other field changes. An
-- account that the setting is not about stays as it is.
pub service_account_patches-apply :
    (s : ServiceAccount) (setting : Setting)
    → apply_to_account (service_account_patches s setting).operations s
      ≡ some (harden_account setting s)
unfolding apply_to_account harden_account
service_account_patches-apply s setting =
    ap (λ p. apply_to_account p.operations s) (service_account_patches-cases s setting)
    ∙ elim (Bool-cases (is_concerned setting s)) [
      | inl concerned ↦ rw concerned (deny_automount-apply s setting)
      | inr other ↦ rw other refl
    ]

some-injective : {p q : ServiceAccount} → some p ≡ some q → p ≡ q
some-injective e = cc e

hardened-settled :
    (s : ServiceAccount) (setting : Setting)
    → is_concerned setting (harden_account setting s) ≡ false
unfolding harden_account
hardened-settled s setting = elim (Bool-cases (is_concerned setting s)) [
  | inl concerned ↦ rw concerned refl
  | inr other ↦ rw other other
]

settled-errors :
    (s : ServiceAccount) (setting : Setting)
    → is_concerned setting s ≡ false
    → service_account_errors s setting ≡ []
unfolding service_account_errors validate_service_account_token_mount
settled-errors s setting e = ground (
  arith,
  eq_iff setting.value "",
  eq_iff setting.value "change-default",
  eq_iff setting.value "change-all",
  eq_iff "" "change-default",
  eq_iff "" "change-all",
  eq_iff "change-all" "change-default",
)

-- A service account to which the patch of an earlier mutation was applied has no error and gets no further
-- patch under the same setting.
pub service_account_patches-again :
    (s r : ServiceAccount) (setting : Setting)
    → apply_to_account (service_account_patches s setting).operations s ≡ some r
    → (service_account_errors r setting ≡ []) × (service_account_patches r setting ≡ no_patches)
service_account_patches-again s r setting e =
    let same : r ≡ harden_account setting s =
      some-injective (sym e ∙ service_account_patches-apply s setting) in
    let settled =
      subst (λ q. is_concerned setting q ≡ false) (sym same) (hardened-settled s setting) in
    (settled-errors r setting settled, service_account_patches-cases r setting ∙ rw settled refl)
