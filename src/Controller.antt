-- ===== src/Controller.antt =====
-- pkg/controller: the controllers that keep the cluster as desired. `Api` is the interface to the API
-- server and its caches, `Policies` the network policy reconciler, `Config` the reconciler of the
-- configuration, and `Work` the queues and workers of both.
pub mod Api
pub mod Policies
pub mod Handlers
pub mod Config
pub mod Work
pub mod Lifecycle
