-- ===== src/Games.antt =====
-- The built-in games, src/arena/games: each one's state and its rules engine.
pub mod Nim
pub mod Pig
pub mod Rps
pub mod LiarsDice
pub mod Connect4
