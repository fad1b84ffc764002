-- ===== src/Auth.antt =====
-- src/auth: the sessions, the limiter of failed logins, and the routes that use them.
pub mod Sessions
pub mod Limiter
pub mod Password
pub mod Server
pub mod Register
pub mod Login
pub mod Recover
pub mod Account
pub mod Gate
mod RouteTests
pub mod Sample
