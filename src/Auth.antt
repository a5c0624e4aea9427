-- ===== src/Auth.antt =====
-- admin_auth.go and main.go: the administrator's sessions and who may reach a handler.
pub mod Tests
pub mod Compare
pub mod Password
pub mod Sessions
pub mod Middleware
