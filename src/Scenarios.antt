-- ===== src/Scenarios.antt =====
-- Concrete runs: the generators, joint turns, games, matches, sessions and limiters on which the
-- theorems are applied.
mod Chance
mod Joint
mod Views
mod Matches
mod Policies
mod Registries
mod Games
mod Dice
mod Boards
mod Transcripts
mod Sessions
mod Limits
