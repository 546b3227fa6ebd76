-- ===== src/Server.antt =====
-- src/main.rs: the handlers, the routes, and what one connection is answered.
pub mod Handlers
pub mod Connection
