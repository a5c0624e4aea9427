-- ===== src/Incus.antt =====
-- internal/incus/client.go: the client of the container runtime, Incus or LXD.
pub mod Tests
pub mod Runner
pub mod Probe
pub mod Quiet
pub mod Query
pub mod Lifecycle
pub mod Forwards
pub mod Ssh
pub mod Guards
pub mod Creating
