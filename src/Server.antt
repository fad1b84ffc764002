-- ===== src/Server.antt =====
-- Decisions of the HTTP server.
pub mod Admin
pub mod JobRoutes
pub mod Settings
