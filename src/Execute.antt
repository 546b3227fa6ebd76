-- ===== src/Execute.antt =====
-- The execution pipeline (src/execute).
pub mod Hash
pub mod Engine
