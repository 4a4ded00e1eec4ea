-- ===== src/Games/Connect4.antt =====
-- Connect Four, src/arena/games/connect4. Row 0 is the top row; a cell holds 0, or 1 and 2 for the discs
-- of seat 0 and seat 1.
pub mod State
pub mod Winner
pub mod Rules
