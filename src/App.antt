-- ===== src/App.antt =====
-- main.go, policy.go and reconcile.go: the application over the store and the runtime's client.
pub mod Tests
pub mod Audited
pub mod Acting
pub mod History
pub mod Base
pub mod Capacity
pub mod Host
pub mod Create
pub mod Names
pub mod Ssh
pub mod Bulk
pub mod Policy
pub mod Reconcile
pub mod Actions
