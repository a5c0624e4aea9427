-- ===== src/Api.antt =====
-- main.go: the HTTP interface, from the middleware through the routes to the handlers.
pub mod Tests
pub mod Errors
pub mod Answer
pub mod Targets
pub mod Reading
pub mod Metrics
pub mod Containers
pub mod Administration
pub mod Serve
pub mod Startup
pub mod Reach
pub mod Open
pub mod Quiet
pub mod History
pub mod Safe
pub mod Guarded
pub mod Protected
