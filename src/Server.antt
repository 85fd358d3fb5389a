-- ===== src/Server.antt =====
-- The HTTP handlers (cmd/server/main.go): the list of shows, the health check, the debug endpoints with their
-- guard, and the middleware that all of them run in.
pub mod Health
pub mod List
pub mod Debug
pub mod Response
pub mod Admin
