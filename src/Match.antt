-- ===== src/Match.antt =====
-- Local matches, src/arena/match: turns, snapshots, chance draining, policies and replay.
pub mod LocalMatch
pub mod Policy
pub mod Transcript
