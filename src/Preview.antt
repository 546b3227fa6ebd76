-- ===== src/Preview.antt =====
-- The preview pipeline (src/preview).
pub mod Validator
pub mod Wrapper
pub mod Engine
