-- ===== src/Games/Connect4/Rules.antt =====
-- The rules engine of Connect Four, src/arena/games/connect4/rules.py, with its events and
-- observations. The engine object holds the configuration that `initial_state` stored last.
pub mod Drops
pub mod Moves
use agents_arena.Prelude.{
  ℕ, zero, suc, ◌+◌, ◌-◌, Bool, true, false, not, ◌&&◌, ◌||◌, Option, none, some, List, [], ◌∷◌,
  replicate, all, length, get_elem?, ltb, leb, ◌==◌, if◌then◌else◌,
}
use agents_arena.Core.Errors.{
  Result, ok, err, ◌>>=◌, ◌>>◌, raise_if, value_error, wrong_player, illegal_action, game_finished,
  index_error, assertion_error,
}
use agents_arena.Core.Engine.{
  GameTypes, Given, given, foreign, RuleResult, win, draw, TransitionResult, RulesEngine,
}
use agents_arena.Games.Connect4.State.{
  Connect4Config, make_config, Board, empty_cell, disc_for_seat, Connect4State, rows_fit, top,
  make_state, DropDisc,
}
use agents_arena.Games.Connect4.Winner.{
  Step, take_step, reverse, shows, room, count_direction, contiguous, directions, connects,
  winner_through, cell_at, winner_from_last_move, winner_on_board, board_is_full_cells, back, stay,
  forth,
}

pub data Connect4Event : Type 0 where
  disc_dropped : (seat column row : ℕ) → Connect4Event
  winner_detected : (winning_seat : ℕ) → Connect4Event
  game_drawn : Connect4Event

unfoldable pub initial_state :
    Connect4Config → Connect4Config → Result (Connect4Config × Connect4State)
unfolding make_state
initial_state engine config = do
  state ← make_state (replicate config.rows (replicate config.columns empty_cell)) 0
  ok (config, state)

unfoldable pub result : Connect4Config → Connect4State → Option RuleResult
result engine state = elim (winner_on_board engine.connect_length state.board) [
  | none ↦ if board_is_full_cells state.board then some draw else none
  | some seat ↦ some (win seat)
]

unfoldable pub is_terminal : Connect4Config → Connect4State → Bool
is_terminal engine state = elim (result engine state) [ none ↦ false | some r ↦ true ]

-- The empty cells of the top row, from `column` on.
open_columns : ℕ → List ℕ → List (Given DropDisc)
open_columns column [] = []
open_columns column (cell ∷ cells) =
    let rest = open_columns (column + 1) cells in
    if cell == empty_cell then given (record { column = column }) ∷ rest else rest

unfoldable pub legal_actions : Connect4Config → Connect4State → ℕ → List (Given DropDisc)
unfolding open_columns
legal_actions engine state seat =
    if is_terminal engine state || not (seat == state.current_seat)
    then []
    else open_columns 0 (top state.board)

check_drop : Connect4State → Given DropDisc → Result (Unit {0})
check_drop state foreign = err illegal_action
check_drop state (given action) = do
  raise_if (leb (length (top state.board)) action.column) illegal_action
  cell ← cell_at state.board 0 action.column
  raise_if (not (cell == empty_cell)) illegal_action

unfoldable pub validate_action :
    Connect4Config → Connect4State → ℕ → Given DropDisc → Result (Unit {0})
unfolding check_drop
validate_action engine state seat action = do
  raise_if (is_terminal engine state) game_finished
  raise_if (not (seat == state.current_seat)) wrong_player
  check_drop state action

-- `row[column] == EMPTY_CELL`.
unfoldable pub is_open : List ℕ → ℕ → Bool
is_open cells column = elim (get_elem? cells column) [
  | none ↦ false
  | some cell ↦ cell == empty_cell
]

-- The last row whose cell is empty.
unfoldable pub drop_row : Board → ℕ → Option ℕ
drop_row [] column = none
drop_row (row ∷ rows) column = elim (drop_row rows column) [
  | none ↦ if is_open row column then some 0 else none
  | some below ↦ some (suc below)
]

-- The comprehension over the cells of a row, counted from the first argument.
unfoldable pub row_with_disc : ℕ → Bool → ℕ → ℕ → List ℕ → List ℕ
row_with_disc i here column disc [] = []
row_with_disc i here column disc (cell ∷ cells) =
    (if here && i == column then disc else cell) ∷ row_with_disc (i + 1) here column disc cells

unfoldable pub rows_with_disc : ℕ → ℕ → ℕ → ℕ → Board → Board
rows_with_disc i row column disc [] = []
rows_with_disc i row column disc (cells ∷ rows) =
    row_with_disc 0 (i == row) column disc cells ∷ rows_with_disc (i + 1) row column disc rows

unfoldable pub other_seat : ℕ → ℕ
other_seat seat = if seat == 0 then 1 else 0

-- The next state, and what the drop returns.
unfoldable pub finish_drop :
    Board
    → ℕ
    → List Connect4Event
    → Option RuleResult
    → Result (TransitionResult Connect4State Connect4Event)
finish_drop board seat events outcome = do
  state ← make_state board seat
  ok (record { state = state; events = events; result = outcome })

-- What follows the drop: the winner, the draw, or the turn of the other seat.
unfoldable pub after_drop :
    ℕ → ℕ → ℕ → Board → Option ℕ → Result (TransitionResult Connect4State Connect4Event)
after_drop seat column row board (some winner) =
    finish_drop board seat (disc_dropped seat column row ∷ winner_detected winner ∷ [])
      (some (win winner))
after_drop seat column row board none =
    if board_is_full_cells board
    then finish_drop board seat (disc_dropped seat column row ∷ game_drawn ∷ []) (some draw)
    else finish_drop board (other_seat seat) (disc_dropped seat column row ∷ []) none

drop_at :
    Connect4Config
    → Connect4State
    → ℕ
    → ℕ
    → Option ℕ
    → Result (TransitionResult Connect4State Connect4Event)
drop_at engine state seat column none = err assertion_error
drop_at engine state seat column (some row) = do
  disc ← disc_for_seat seat
  let board = rows_with_disc 0 row column disc state.board
  winner ← winner_from_last_move engine.connect_length board row column
  after_drop seat column row board winner

apply_drop :
    Connect4Config
    → Connect4State
    → ℕ
    → Given DropDisc
    → Result (TransitionResult Connect4State Connect4Event)
unfolding drop_at
apply_drop engine state seat foreign = err illegal_action
apply_drop engine state seat (given action) =
    drop_at engine state seat action.column (drop_row state.board action.column)

unfoldable pub apply_action :
    Connect4Config
    → Connect4State
    → ℕ
    → Given DropDisc
    → Result (TransitionResult Connect4State Connect4Event)
unfolding apply_drop
apply_action engine state seat action = do
  validate_action engine state seat action
  apply_drop engine state seat action

pub record Connect4Observation : Type 0 where
  pub seat : ℕ
  pub board : Board
  pub current_seat : ℕ
  pub legal_actions : List (Given DropDisc)

unfoldable pub observation : Connect4Config → Connect4State → ℕ → Result Connect4Observation
observation engine state seat = ok (record {
  seat = seat;
  board = state.board;
  current_seat = state.current_seat;
  legal_actions = legal_actions engine state seat;
})

-- Connect Four has no chance outcomes; `Json` is the type of the payloads.
abbrev pub connect4_types : Type 0 → GameTypes
connect4_types Json = record {
  Engine = Connect4Config;
  Config = Connect4Config;
  State = Connect4State;
  Action = Given DropDisc;
  Outcome = ⊥;
  Event = Connect4Event;
  Observation = Connect4Observation;
  Json = Json;
}

abbrev pub connect4_rules : (Json : Type 0) → RulesEngine (connect4_types Json)
connect4_rules Json = record {
  initial_state = initial_state;
  current_seat = λ engine state. state.current_seat;
  legal_actions = legal_actions;
  validate_action = validate_action;
  apply_action = apply_action;
  is_terminal = is_terminal;
  result = result;
  observation = observation;
  public_state_hook = none;
  is_chance_node_hook = none;
  sample_chance_hook = none;
  apply_chance_hook = none;
  acting_seats_hook = none;
  apply_joint_action_hook = none;
}
