-- ===== src/Adapters.antt =====
-- The adapters of policies, src/arena/adapters.
pub mod InProcess
