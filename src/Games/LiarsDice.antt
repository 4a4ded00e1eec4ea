-- ===== src/Games/LiarsDice.antt =====
-- Liar's Dice, src/arena/games/liarsdice: hands that only their seat sees, and a roll for each
-- round.
pub mod State
pub mod Rules
pub mod Valid
pub mod Serializer
pub mod Views
