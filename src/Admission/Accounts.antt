-- ===== src/Admission/Accounts.antt =====
-- Mutation and validation of service accounts.
use karydia.Common.{◌≡◌, ◌≢◌, ◌↔◌, ◌⊎◌, none, [], arith, eq_iff}
use karydia.Kube.{ServiceAccount}
use karydia.Admission.Types.{Setting}
use karydia.Admission.ServiceAccount.{
  deny_automount, mutate_service_account_token_mount, validate_service_account_token_mount,
  service_account_patches, service_account_errors,
}

-- The accounts that a setting is about.
abbrev pub IsConcerned : Setting → ServiceAccount → Type 0
IsConcerned setting s =
    (s.automount_service_account_token ≡ none)
    × (((setting.value ≡ "change-default") × (s.meta.name ≡ "default"))
        ⊎ (setting.value ≡ "change-all"))

-- An account is patched exactly when it leaves the mount of its token open and the setting is about
-- it, and validation finds an error in exactly the same accounts.
pub patches-iff-errors :
    (s : ServiceAccount) (setting : Setting)
    → (((service_account_patches s setting).operations ≢ []) ↔ IsConcerned setting s)
      × ((service_account_errors s setting ≢ []) ↔ IsConcerned setting s)
unfolding service_account_patches service_account_errors mutate_service_account_token_mount
    validate_service_account_token_mount deny_automount
patches-iff-errors s setting = (
  ground (
    arith,
    eq_iff setting.value "",
    eq_iff setting.value "change-default",
    eq_iff setting.value "change-all",
    eq_iff s.meta.name "default",
    eq_iff "" "change-default",
    eq_iff "" "change-all",
    eq_iff "change-all" "change-default",
  ),
  ground (
    arith,
    eq_iff setting.value "",
    eq_iff setting.value "change-default",
    eq_iff setting.value "change-all",
    eq_iff s.meta.name "default",
    eq_iff "" "change-default",
    eq_iff "" "change-all",
    eq_iff "change-all" "change-default",
  ),
)
