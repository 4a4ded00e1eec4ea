-- ===== src/Runtime.antt =====
-- The runtime of local sessions, src/arena/runtime.
pub mod Session
