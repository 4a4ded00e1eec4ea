-- ===== src/Scenarios/Boards.antt =====
-- A game of Connect Four on four rows and four columns, with three discs to connect.
use agents_arena.Prelude.{In, ◌↔◌, ℕ, ◌+◌, ◌*◌, ◌≡◌, refl, inl, List, [], ◌∷◌, replicate, arith}
use agents_arena.Core.Errors.{ok}
use agents_arena.Core.Engine.{Given, given, TransitionResult}
use agents_arena.Games.Connect4.State
use agents_arena.Games.Connect4.Winner
use agents_arena.Games.Connect4.Rules
use agents_arena.Games.Connect4.State.{Connect4Config, Connect4State, DropDisc}
use agents_arena.Games.Connect4.Rules.{Connect4Event}
use agents_arena.Games.Connect4.Rules.Drops.{empty_cells}
use agents_arena.Games.Connect4.Rules.Moves.{
  IsValid, run, connect4_apply_action-IsValid, connect4_legal_actions-iff_valid,
  connect4_run-empty_cells,
}

abbrev four : Connect4Config
four = record { rows = 4; columns = 4; connect_length = 3 }

abbrev clear : Connect4State
clear = record { board = replicate 4 (replicate 4 0); current_seat = 0 }

clear-IsValid : IsValid clear
unfolding State.top State.rows_fit
clear-IsValid = record { tall = omega arith; wide = omega arith; fits = refl; seat = inl refl }

abbrev drop : ℕ → Given DropDisc
drop column = given (record { column = column })

valid : Rules.validate_action four clear 0 (drop 2) ≡ ok tt
unfolding Rules.validate_action Rules.is_terminal Rules.result Winner.winner_on_board
    Winner.board_is_full_cells Winner.winner_through State.top Winner.cell_at
valid = refl

connect4_apply_action-IsValid_example :
    (t : TransitionResult Connect4State Connect4Event) × (Rules.apply_action four clear 0 (drop 2)
      ≡ ok t)
    × IsValid t.state
    × (empty_cells t.state.board + 1 ≡ 16)
connect4_apply_action-IsValid_example =
    connect4_apply_action-IsValid four clear 0 (drop 2) clear-IsValid valid

-- Seat 0 piles three discs up in the first column, which wins.
abbrev moves : List (ℕ × Given DropDisc)
moves = (0, drop 0) ∷ (1, drop 1) ∷ (0, drop 0) ∷ (1, drop 1) ∷ (0, drop 0) ∷ []

abbrev won : Connect4State
won = record {
  board =
      (0 ∷ 0 ∷ 0 ∷ 0 ∷ [])
      ∷ (1 ∷ 0 ∷ 0 ∷ 0 ∷ [])
      ∷ (1 ∷ 2 ∷ 0 ∷ 0 ∷ [])
      ∷ (1 ∷ 2 ∷ 0 ∷ 0 ∷ [])
      ∷ [];
  current_seat = 0;
}

opened : Rules.initial_state four four ≡ ok (four, clear)
unfolding Rules.initial_state State.make_state State.top State.rows_fit
opened = refl

played : run four clear moves ≡ ok won
unfolding run Rules.apply_action Rules.validate_action Rules.is_terminal Rules.result
    Winner.winner_on_board Winner.board_is_full_cells Winner.winner_through Winner.connects
    Winner.contiguous Winner.count_direction Winner.reverse Winner.take_step Winner.shows State.top
    Winner.cell_at Rules.drop_row Rules.is_open Rules.rows_with_disc Rules.row_with_disc
    State.disc_for_seat Winner.winner_from_last_move Rules.after_drop Rules.finish_drop
    State.make_state State.rows_fit Rules.other_seat
played = refl

connect4_run-empty_cells_example : empty_cells won.board + 5 ≡ 4 * 4
connect4_run-empty_cells_example = connect4_run-empty_cells four four clear won moves opened played

connect4_legal_actions-iff_valid_example :
    In (drop 2) (Rules.legal_actions four clear 0)
    ↔ (Rules.validate_action four clear 0 (drop 2) ≡ ok tt)
connect4_legal_actions-iff_valid_example = connect4_legal_actions-iff_valid four clear 0 (drop 2)
