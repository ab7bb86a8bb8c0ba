-- ===== src/Tests.antt =====
-- Runs at concrete inputs: the theorems of the library at a pod, a service account, a webhook with
-- two plugins, and a cluster with one namespace.
mod Data
mod Admissions
mod Serving
mod Clients
mod Configs
mod Copies
mod Lifecycles
mod Listing
mod Logs
mod Recreation
mod Routes
mod Launch
mod Policies
