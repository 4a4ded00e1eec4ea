-- ===== src/Games/Connect4/Winner.antt =====
-- Lines of discs in Connect Four: the searches for a winner of src/arena/games/connect4/rules.py.
pub mod Lines
use agents_arena.Prelude.{
  ℕ, zero, suc, ◌+◌, ◌-◌, Bool, true, false, not, ◌&&◌, ◌||◌, Option, none, some, List, [], ◌∷◌,
  replicate, all, length, get_elem?, ltb, leb, ◌==◌, if◌then◌else◌,
}
use agents_arena.Core.Errors.{
  Result, ok, err, ◌>>=◌, ◌>>◌, raise_if, value_error, wrong_player, illegal_action, game_finished,
  index_error, assertion_error,
}
use agents_arena.Games.Connect4.State.{
  Connect4Config, make_config, Board, empty_cell, disc_for_seat, Connect4State, rows_fit, top,
  make_state, DropDisc,
}

-- A step along an axis, which may leave the board at 0.
pub data Step : Type 0 where
  back stay forth : Step

unfoldable pub take_step : Step → ℕ → Option ℕ
take_step back zero = none
take_step back (suc i) = some i
take_step stay i = some i
take_step forth i = some (i + 1)

unfoldable pub reverse : Step → Step
reverse back = forth
reverse stay = stay
reverse forth = back

-- Whether the cell is on the board and holds the disc.
unfoldable pub shows : Board → Option ℕ → Option ℕ → ℕ → Bool
shows board none column disc = false
shows board (some row) none disc = false
shows board (some row) (some column) disc = elim (get_elem? board row) [
  | none ↦ false
  | some cells ↦ elim (get_elem? cells column) [ none ↦ false | some cell ↦ cell == disc ]
]

-- The `while` loop from a cell on, with the steps that the board has room for.
count_from : ℕ → Board → Option ℕ → Option ℕ → Step → Step → ℕ → ℕ
count_from zero board row column row_step column_step disc = 0
count_from (suc left) board none column row_step column_step disc = 0
count_from (suc left) board (some row) none row_step column_step disc = 0
count_from (suc left) board (some row) (some column) row_step column_step disc =
    let rest =
      count_from left board (take_step row_step row) (take_step column_step column) row_step
        column_step disc in
    if shows board (some row) (some column) disc then rest + 1 else 0

-- No line has more cells than the board has rows and columns.
abbrev pub room : Board → ℕ
room board = length board + length (top board)

unfoldable pub count_direction : Board → ℕ → ℕ → Step → Step → ℕ → ℕ
unfolding take_step shows count_from
count_direction board row column row_step column_step disc =
    count_from (room board) board (take_step row_step row) (take_step column_step column) row_step
      column_step disc

-- The discs in a line with a cell, in both directions and with the cell.
unfoldable pub contiguous : Board → ℕ → ℕ → Step × Step → ℕ → ℕ
unfolding reverse
contiguous board row column (row_step, column_step) disc =
    1
    + count_direction board row column row_step column_step disc
    + count_direction board row column (reverse row_step) (reverse column_step) disc

abbrev pub directions : List (Step × Step)
directions = (forth, stay) ∷ (stay, forth) ∷ (forth, forth) ∷ (forth, back) ∷ []

-- The loop over the directions.
unfoldable pub connects : ℕ → Board → ℕ → ℕ → ℕ → List (Step × Step) → Bool
connects connect_length board row column disc [] = false
connects connect_length board row column disc (direction ∷ more) =
    leb connect_length (contiguous board row column direction disc)
    || connects connect_length board row column disc more

-- The winner through a cell that holds `disc`.
unfoldable pub winner_through : ℕ → Board → ℕ → ℕ → ℕ → Option ℕ
winner_through connect_length board row column disc =
    if not (disc == empty_cell) && connects connect_length board row column disc directions
    then some (disc - 1)
    else none

-- `board[row][column]`.
unfoldable pub cell_at : Board → ℕ → ℕ → Result ℕ
cell_at board row column = elim (get_elem? board row) [
  | none ↦ err index_error
  | some cells ↦ elim (get_elem? cells column) [ none ↦ err index_error | some cell ↦ ok cell ]
]

unfoldable pub winner_from_last_move : ℕ → Board → ℕ → ℕ → Result (Option ℕ)
winner_from_last_move connect_length board row column = do
  disc ← cell_at board row column
  ok (winner_through connect_length board row column disc)

-- The two loops over the cells, from a cell on.
winner_in_row : ℕ → Board → ℕ → ℕ → List ℕ → Option ℕ
winner_in_row connect_length board row column [] = none
winner_in_row connect_length board row column (cell ∷ cells) =
    let rest = winner_in_row connect_length board row (column + 1) cells in
    elim (winner_through connect_length board row column cell) [
      | none ↦ rest
      | some seat ↦ some seat
    ]

winner_in_rows : ℕ → Board → ℕ → Board → Option ℕ
winner_in_rows connect_length board row [] = none
winner_in_rows connect_length board row (cells ∷ rows) =
    let rest = winner_in_rows connect_length board (row + 1) rows in
    elim (winner_in_row connect_length board row 0 cells) [ none ↦ rest | some seat ↦ some seat ]

unfoldable pub winner_on_board : ℕ → Board → Option ℕ
unfolding winner_in_row winner_in_rows
winner_on_board connect_length board = winner_in_rows connect_length board 0 board

unfoldable pub board_is_full_cells : Board → Bool
board_is_full_cells board = all (λ row. all (λ cell. not (cell == empty_cell)) row) board
