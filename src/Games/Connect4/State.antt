-- ===== src/Games/Connect4/State.antt =====
-- The configuration, the board and the actions of Connect Four, with the checks of their constructors:
-- src/arena/games/connect4, config.py, state.py and actions.py.
use agents_arena.Prelude.{
  ℕ, Bool, true, not, ◌&&◌, ◌||◌, List, [], ◌∷◌, all, length, ltb, leb, ◌==◌, if◌then◌else◌,
}
use agents_arena.Core.Errors.{Result, ok, err, ◌>>◌, raise_if, value_error}

pub record Connect4Config : Type 0 where
  pub rows : ℕ
  pub columns : ℕ
  pub connect_length : ℕ

-- The bounds that the fields declare, and the validator.
unfoldable pub make_config : ℕ → ℕ → ℕ → Result Connect4Config
make_config rows columns connect_length = do
  raise_if (not (leb 4 rows && leb rows 20)) value_error
  raise_if (not (leb 4 columns && leb columns 20)) value_error
  raise_if (ltb connect_length 2) value_error
  raise_if (ltb (if leb rows columns then columns else rows) connect_length) value_error
  ok (record { rows = rows; columns = columns; connect_length = connect_length })

abbrev pub Board : Type 0
Board = List (List ℕ)

abbrev pub empty_cell : ℕ
empty_cell = 0

unfoldable pub disc_for_seat : ℕ → Result ℕ
disc_for_seat seat = if seat == 0 then ok 1 else if seat == 1 then ok 2 else err value_error

pub record Connect4State : Type 0 where
  pub board : Board
  pub current_seat : ℕ

-- The loop over the rows.
unfoldable pub rows_fit : ℕ → Board → Bool
rows_fit row_length [] = true
rows_fit row_length (row ∷ rows) =
    length row == row_length && all (λ cell. leb cell 2) row && rows_fit row_length rows

-- `board[0]`, of a board that has a row.
unfoldable pub top : Board → List ℕ
top [] = []
top (row ∷ rows) = row

-- The checks of `__post_init__`, and the state if they pass.
unfoldable pub make_state : Board → ℕ → Result Connect4State
unfolding top rows_fit
make_state board current_seat = do
  raise_if (length board == 0) value_error
  raise_if (length (top board) == 0) value_error
  raise_if (not (rows_fit (length (top board)) board)) value_error
  raise_if (not (current_seat == 0 || current_seat == 1)) value_error
  ok (record { board = board; current_seat = current_seat })

pub record DropDisc : Type 0 where
  pub column : ℕ
