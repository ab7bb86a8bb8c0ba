-- ===== src/Client.antt =====
-- pkg/client: the generated code between the reconcilers and the API server.
pub mod Clientset
pub mod Informers
pub mod Loops
pub mod Once
pub mod Requests
pub mod Timeouts
pub mod Kinds
pub mod Listers
