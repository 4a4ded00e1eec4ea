-- ===== src/Games/Connect4/Rules/Moves.antt =====
-- The moves of Connect Four, src/arena/games/connect4: what is legal, what a drop leads to, and the
-- length of a match.
use mathlib.Core.Path.{subst}
use agents_arena.Prelude.{
  ℕ, zero, suc, ◌+◌, ◌*◌, ◌≤◌, ◌≡◌, refl, ap, ◌⊎◌, ◌↔◌, inl, inr, Bool, Bool-cases, true, false,
  not, ◌||◌, Option, Option-cases, none, some, List, [], ◌∷◌, arith, length, get_elem?, ◌==◌, In,
  In-if, replicate, length-get_elem?,
}
use agents_arena.Core.Errors.{Result, ok, ◌>>=◌, >>=-eq-ok}
use agents_arena.Core.Engine.{Given, given, foreign, RuleResult, TransitionResult}
use agents_arena.Games.Connect4.State.{
  Connect4Config, Board, empty_cell, disc_for_seat, Connect4State, rows_fit, top, make_state,
  DropDisc,
}
use agents_arena.Games.Connect4.Winner.{
  winner_through, cell_at, winner_from_last_move, board_is_full_cells,
}
use agents_arena.Games.Connect4.Rules.{
  Connect4Event, initial_state, is_terminal, open_columns, legal_actions, check_drop,
  validate_action, drop_row, rows_with_disc, other_seat, finish_drop, after_drop, drop_at,
  apply_drop, apply_action,
}
use agents_arena.Games.Connect4.Rules.Drops.{
  empty_cells, empty_in, empty_cells-rows_with_disc, drop_row-top, cell-rows_with_disc,
  rows_fit-rows_with_disc, length-rows_with_disc, length-top, cell_open,
}

-- What the constructor accepts.
pub record IsValid (s : Connect4State) : Type 0 where
  pub tall : 1 ≤ length s.board
  pub wide : 1 ≤ length (top s.board)
  pub fits : rows_fit (length (top s.board)) s.board ≡ true
  pub seat : (s.current_seat ≡ 0) ⊎ (s.current_seat ≡ 1)

pub make_state-valid : (s : Connect4State) → IsValid s → make_state s.board s.current_seat ≡ ok s
unfolding make_state
make_state-valid s v = ground (arith, v.tall, v.wide, v.fits, v.seat)

make_state-IsValid :
    (board : Board) (seat : ℕ) (s : Connect4State)
    → make_state board seat ≡ ok s
    → IsValid s × (s.board ≡ board)
unfolding make_state
make_state-IsValid board seat s h =
    let same : record { board = board; current_seat = seat } ≡ s = ground arith in
    subst (λ (s : Connect4State). IsValid s × (s.board ≡ board)) same
      (
        record {
          tall = ground arith;
          wide = ground arith;
          fits = ground arith;
          seat = ground arith;
        },
        refl,
      )

-- The columns on offer are those whose top cell is empty.
open_columns-In :
    (a : DropDisc) (k : ℕ) (cells : List ℕ)
    → In (given a) (open_columns k cells)
    → (j : ℕ) × (a.column ≡ k + j) × (get_elem? cells j ≡ some 0)
unfolding open_columns
open_columns-In a k [] h = elim h [ ]
open_columns-In a k (cell ∷ cells) h = elim (Bool-cases (cell == 0)) [
  | inl free ↦ elim (rw free at h) [
    | inl here ↦ (0, ground arith, ground arith)
    | inr there ↦
        let (j, column, found) = open_columns-In a (k + 1) cells there in
        (suc j, omega arith, found)
  ]
  | inr taken ↦
      let (j, column, found) = open_columns-In a (k + 1) cells (rw taken at h) in
      (suc j, omega arith, found)
]

In-open_columns :
    (a : DropDisc) (k j : ℕ) (cells : List ℕ)
    → a.column ≡ k + j
    → get_elem? cells j ≡ some 0
    → In (given a) (open_columns k cells)
unfolding open_columns
In-open_columns a k j [] e h = cc
In-open_columns a k zero (cell ∷ cells) e h =
    let free : (cell == 0) ≡ true = ground arith in
    let same : a ≡ record { column = k } = ap (λ c. record { column = c }) (omega arith) in
    rw free (inl (ap given same))
In-open_columns a k (suc j) (cell ∷ cells) e h =
    let later = In-open_columns a (k + 1) j cells (omega arith) h in
    elim (Bool-cases (cell == 0)) [ inl free ↦ rw free (inr later) | inr taken ↦ rw taken later ]

no_foreign : (k : ℕ) (cells : List ℕ) → ¬ In foreign (open_columns k cells)
unfolding open_columns
no_foreign k [] h = elim h [ ]
no_foreign k (cell ∷ cells) h = elim (Bool-cases (cell == 0)) [
  | inl free ↦ elim (rw free at h) [ inl here ↦ cc | inr there ↦ no_foreign (k + 1) cells there ]
  | inr taken ↦ no_foreign (k + 1) cells (rw taken at h)
]

-- The check of a column.
check_drop-open :
    (board : Board) (seat : ℕ) (a : DropDisc)
    → check_drop (record { board = board; current_seat = seat }) (given a) ≡ ok tt
    → get_elem? (top board) a.column ≡ some 0
unfolding check_drop cell_at top
check_drop-open [] seat a h = ground arith
check_drop-open (cells ∷ rows) seat a h = elim (Option-cases (get_elem? cells a.column)) [
  | inl out ↦ ground arith
  | inr (cell, found) ↦ ground arith
]

open-check_drop :
    (board : Board) (seat : ℕ) (a : DropDisc)
    → get_elem? (top board) a.column ≡ some 0
    → check_drop (record { board = board; current_seat = seat }) (given a) ≡ ok tt
unfolding check_drop cell_at top
open-check_drop [] seat a h = cc
open-check_drop (cells ∷ rows) seat a h =
    let inside = length-get_elem? cells a.column h in ground arith

-- Nobody may move while this holds.
abbrev closed : Connect4Config → Connect4State → ℕ → Bool
closed engine s seat = is_terminal engine s || not (seat == s.current_seat)

validate_action-eq_ok :
    (engine : Connect4Config) (s : Connect4State) (seat : ℕ) (a : Given DropDisc)
    → validate_action engine s seat a ≡ ok tt
    → (closed engine s seat ≡ false) × (seat ≡ s.current_seat) × (check_drop s a ≡ ok tt)
unfolding validate_action
validate_action-eq_ok engine s seat a h = ground arith

legal→valid :
    (engine : Connect4Config) (s : Connect4State) (seat : ℕ) (a : Given DropDisc)
    → In a (legal_actions engine s seat)
    → validate_action engine s seat a ≡ ok tt
unfolding legal_actions validate_action
legal→valid engine s seat foreign h =
    absurd (no_foreign 0 (top s.board) (In-if foreign (closed engine s seat) _ h).1)
legal→valid engine s seat (given a) h =
    let (open_turn, inside) =
      In-if (given a) (closed engine s seat) (open_columns 0 (top s.board)) h in
    let (j, column, found) = open_columns-In a 0 (top s.board) inside in
    let same : a.column ≡ j = omega arith in
    ground (arith, open-check_drop s.board s.current_seat a (rw same found))

valid→legal :
    (engine : Connect4Config) (s : Connect4State) (seat : ℕ) (a : Given DropDisc)
    → validate_action engine s seat a ≡ ok tt
    → In a (legal_actions engine s seat)
unfolding legal_actions
valid→legal engine s seat foreign h =
    let (open_turn, mine, fits) = validate_action-eq_ok engine s seat foreign h in
    unfold check_drop in cc
valid→legal engine s seat (given a) h =
    let (open_turn, mine, fits) = validate_action-eq_ok engine s seat (given a) h in
    rw open_turn (
      In-open_columns a 0 a.column (top s.board) (omega arith)
        (check_drop-open s.board s.current_seat a fits))

-- The legal actions of Connect Four are exactly the actions that pass validation.
pub connect4_legal_actions-iff_valid :
    (engine : Connect4Config) (s : Connect4State) (seat : ℕ) (a : Given DropDisc)
    → In a (legal_actions engine s seat) ↔ (validate_action engine s seat a ≡ ok tt)
connect4_legal_actions-iff_valid engine s seat a =
    (legal→valid engine s seat a, valid→legal engine s seat a)

-- A valid drop has a row to land in.
lands :
    (board : Board) (column : ℕ)
    → get_elem? (top board) column ≡ some 0
    → (r : ℕ) × (drop_row board column ≡ some r)
unfolding top
lands [] column h = cc
lands (cells ∷ rows) column h = drop_row-top cells rows column (cell_open cells column h)

-- The state after a drop, whoever is to move.
dropped-IsValid :
    (s : Connect4State) (row column disc seat : ℕ)
    → IsValid s
    → disc ≤ 2
    → (seat ≡ 0) ⊎ (seat ≡ 1)
    → IsValid (record { board = rows_with_disc 0 row column disc s.board; current_seat = seat })
dropped-IsValid s row column disc seat v d one = record {
  tall = rw (length-rows_with_disc 0 row column disc s.board) v.tall;
  wide = rw (length-top row column disc s.board) v.wide;
  fits =
      rw (length-top row column disc s.board)
        (rows_fit-rows_with_disc (length (top s.board)) 0 row column disc s.board d v.fits);
  seat = one;
}

-- The outcome of a valid drop.
abbrev Leads : Connect4State → Result (TransitionResult Connect4State Connect4Event) → Type 0
Leads s outcome =
    (t : TransitionResult Connect4State Connect4Event) × (outcome ≡ ok t)
    × IsValid t.state
    × (empty_cells t.state.board + 1 ≡ empty_cells s.board)

finish_drop-Leads :
    (s : Connect4State) (board : Board) (seat : ℕ) (events : List Connect4Event)
    (outcome : Option RuleResult)
    → IsValid (record { board = board; current_seat = seat })
    → empty_cells board + 1 ≡ empty_cells s.board
    → Leads s (finish_drop board seat events outcome)
unfolding finish_drop
finish_drop-Leads s board seat events outcome v fewer =
    let next : Connect4State = record { board = board; current_seat = seat } in
    (
      record { state = next; events = events; result = outcome },
      rw (make_state-valid next v) refl,
      v,
      fewer,
    )

after_drop-Leads :
    (s : Connect4State) (seat column row : ℕ) (board : Board) (winner : Option ℕ)
    → ((seat : ℕ)
        → (seat ≡ 0) ⊎ (seat ≡ 1)
        → IsValid (record { board = board; current_seat = seat }))
    → (seat ≡ 0) ⊎ (seat ≡ 1)
    → empty_cells board + 1 ≡ empty_cells s.board
    → Leads s (after_drop seat column row board winner)
unfolding after_drop
after_drop-Leads s seat column row board (some winner) v one fewer =
    finish_drop-Leads s board seat _ _ (v seat one) fewer
after_drop-Leads s seat column row board none v one fewer =
    elim (Bool-cases (board_is_full_cells board)) [
      | inl full ↦ rw full (finish_drop-Leads s board seat _ _ (v seat one) fewer)
      | inr space ↦
          let other : (other_seat seat ≡ 0) ⊎ (other_seat seat ≡ 1) =
            unfold other_seat in ground arith in
          rw space
            (finish_drop-Leads s board (other_seat seat) _ _ (v (other_seat seat) other) fewer)
    ]

disc_of :
    (seat : ℕ)
    → (seat ≡ 0) ⊎ (seat ≡ 1)
    → (disc : ℕ) × (disc_for_seat seat ≡ ok disc) × (1 ≤ disc) × (disc ≤ 2)
unfolding disc_for_seat
disc_of seat (inl first) = (1, rw first refl, omega arith, omega arith)
disc_of seat (inr second) = (2, rw second refl, omega arith, omega arith)

cell_found :
    (board : Board) (row column : ℕ) (cells : List ℕ) {cell : ℕ}
    → get_elem? board row ≡ some cells
    → get_elem? cells column ≡ some cell
    → cell_at board row column ≡ ok cell
unfolding cell_at
cell_found board row column cells b c = rw (b, c, cell_at) refl

-- The disc that was dropped is the one whose lines are counted.
winner-cell :
    (connect_length row column disc : ℕ) (board : Board) (cells : List ℕ)
    → get_elem? board row ≡ some cells
    → get_elem? cells column ≡ some disc
    → winner_from_last_move connect_length board row column
      ≡ ok (winner_through connect_length board row column disc)
unfolding winner_from_last_move
winner-cell connect_length row column disc board cells b c =
    rw (cell_found board row column cells b c) refl

drop_at-Leads :
    (engine : Connect4Config) (s : Connect4State) (seat column row : ℕ)
    → IsValid s
    → (seat ≡ 0) ⊎ (seat ≡ 1)
    → drop_row s.board column ≡ some row
    → Leads s (drop_at engine s seat column (some row))
unfolding drop_at
drop_at-Leads engine s seat column row v one found =
    let (disc, d, l, u) = disc_of seat one in
    let board = rows_with_disc 0 row column disc s.board in
    let (cells, b, c) = cell-rows_with_disc 0 row column disc row s.board (omega arith) found in
    rw (d, winner-cell engine.connect_length row column disc board cells b c)
      (after_drop-Leads s seat column row board _
        (λ next turn. dropped-IsValid s row column disc next v u turn) one
        (empty_cells-rows_with_disc 0 row column disc row s.board l (omega arith) found))

-- On a board that the constructor accepts, a drop that passes validation is applied, to a state that
-- it accepts, with one empty cell less.
pub connect4_apply_action-IsValid :
    (engine : Connect4Config) (s : Connect4State) (seat : ℕ) (a : Given DropDisc)
    → IsValid s
    → validate_action engine s seat a ≡ ok tt
    → (t : TransitionResult Connect4State Connect4Event) × (apply_action engine s seat a ≡ ok t)
      × IsValid t.state
      × (empty_cells t.state.board + 1 ≡ empty_cells s.board)
unfolding apply_action apply_drop
connect4_apply_action-IsValid engine s seat foreign v h =
    let (open_turn, mine, fits) = validate_action-eq_ok engine s seat foreign h in
    unfold check_drop in cc
connect4_apply_action-IsValid engine s seat (given a) v h =
    let (open_turn, mine, fits) = validate_action-eq_ok engine s seat (given a) h in
    let (row, found) = lands s.board a.column (check_drop-open s.board s.current_seat a fits) in
    rw (h, found) (drop_at-Leads engine s seat a.column row v (rw mine v.seat) found)

-- The moves of a match, each with the seat that makes it.
unfoldable pub run :
    Connect4Config → Connect4State → List (ℕ × Given DropDisc) → Result Connect4State
run engine s [] = ok s
run engine s ((seat, a) ∷ moves) = do t ← apply_action engine s seat a; run engine t.state moves

applied-validate_action :
    (engine : Connect4Config) (s : Connect4State) (seat : ℕ) (a : Given DropDisc)
    {t : TransitionResult Connect4State Connect4Event}
    → apply_action engine s seat a ≡ ok t
    → validate_action engine s seat a ≡ ok tt
unfolding apply_action
applied-validate_action engine s seat a h = (>>=-eq-ok (validate_action engine s seat a) _ h).1

run-length :
    (engine : Connect4Config) (s s' : Connect4State) (moves : List (ℕ × Given DropDisc))
    → IsValid s
    → run engine s moves ≡ ok s'
    → empty_cells s'.board + length moves ≡ empty_cells s.board
unfolding run
run-length engine s s' [] v h = let same : s ≡ s' = cc in rw same omega arith
run-length engine s s' ((seat, a) ∷ moves) v h =
    let (t, moved, rest) =
      >>=-eq-ok (apply_action engine s seat a) (λ t. run engine t.state moves) h in
    let valid = applied-validate_action engine s seat a moved in
    let (t', again, v', fewer) = connect4_apply_action-IsValid engine s seat a v valid in
    let same : t' ≡ t = cc (again, moved) in
    let (v'', fewer') =
      subst
        (λ (t : TransitionResult Connect4State Connect4Event).
          IsValid t.state × (empty_cells t.state.board + 1 ≡ empty_cells s.board))
        same (v', fewer) in
    omega (arith, run-length engine t.state s' moves v'' rest, fewer')

empty_in-replicate : (n : ℕ) → empty_in (replicate n empty_cell) ≡ n
empty_in-replicate zero = refl
empty_in-replicate (suc n) = omega (arith, empty_in-replicate n)

empty_cells-replicate : (m n : ℕ) → empty_cells (replicate m (replicate n empty_cell)) ≡ m * n
empty_cells-replicate zero n = omega arith
empty_cells-replicate (suc m) n = omega (arith, empty_cells-replicate m n, empty_in-replicate n)

-- After moves that are applied one after the other from the initial state of a configuration, the board
-- has as many discs as moves were made: those and the empty cells are rows * columns.
pub connect4_run-empty_cells :
    (engine config : Connect4Config) (s₀ s : Connect4State) (moves : List (ℕ × Given DropDisc))
    → initial_state engine config ≡ ok (config, s₀)
    → run config s₀ moves ≡ ok s
    → empty_cells s.board + length moves ≡ config.rows * config.columns
unfolding initial_state
connect4_run-empty_cells engine config s₀ s moves h played =
    let start = replicate config.rows (replicate config.columns empty_cell) in
    let (made, accepted, done) = >>=-eq-ok (make_state start 0) _ h in
    let same : made ≡ s₀ = cc done in
    let (v, board) = make_state-IsValid start 0 s₀ (rw same at accepted) in
    omega (
      arith,
      run-length config s₀ s moves v played,
      ap empty_cells board,
      empty_cells-replicate config.rows config.columns,
    )
