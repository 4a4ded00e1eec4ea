-- ===== src/Server.antt =====
-- The server, src/arena/server.
pub mod RateLimits
