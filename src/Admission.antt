-- ===== src/Admission.antt =====
-- pkg/admission/karydia: the admission plugin that hardens pods and service accounts.
-- `Types` has the plugin's state, its settings and its patches, `Status` getPodStatus, `Pod` and
-- `ServiceAccount` the two resources, and `Handler` the plugin's entry. The other modules are proofs.
pub mod Types
pub mod Status
pub mod Pod
pub mod ServiceAccount
pub mod Handler
pub mod Patch
pub mod Paths
pub mod Harden
pub mod Terminating
pub mod Settings
pub mod Responses
pub mod Total
pub mod Accounts
pub mod AccountPatch
