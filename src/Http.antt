-- ===== src/Http.antt =====
-- The HTTP layer (src/http).
pub mod Response
pub mod Query
pub mod Request
pub mod Router
