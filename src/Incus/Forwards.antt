-- ===== src/Incus/Forwards.antt =====
-- internal/incus/client.go: port forwards, which are proxy devices of the runtime's instances.
pub mod Endpoint
pub mod Listing
pub mod Adding
pub mod RoundTrip
