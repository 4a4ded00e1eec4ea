-- ===== src/Games/Connect4/Winner/Lines.antt =====
-- Counting along a line in Connect Four, src/arena/games/connect4/rules.py: the loop leaves the board
-- before the steps that the model gives it are used up.
use agents_arena.Prelude.{
  ℕ, zero, suc, ◌+◌, ◌≤◌, ◌<◌, ◌≡◌, refl, ◌∙◌, sym, ap, Bool, inl, inr, true, false, Option,
  Option-cases, none, some, List, [], ◌∷◌, arith, length, get_elem?, length-get_elem?,
}
use agents_arena.Games.Connect4.State.{Board, rows_fit, top}
use agents_arena.Games.Connect4.Winner.{
  Step, take_step, shows, count_from, room, count_direction, back, stay, forth,
}

-- Whatever is left, the loop ends where a step left the board.
off_board :
    (left : ℕ) (board : Board) (column : Option ℕ) (row_step column_step : Step) (disc : ℕ)
    → count_from left board none column row_step column_step disc ≡ 0
unfolding count_from
off_board zero board column row_step column_step disc = refl
off_board (suc left) board column row_step column_step disc = refl

off_side :
    (left : ℕ) (board : Board) (row : ℕ) (row_step column_step : Step) (disc : ℕ)
    → count_from left board (some row) none row_step column_step disc ≡ 0
unfolding count_from
off_side zero board row row_step column_step disc = refl
off_side (suc left) board row row_step column_step disc = refl

-- A row or a column past the end shows no disc.
past_end {ℓ} : {A : Type ℓ} (xs : List A) (i : ℕ) → length xs ≤ i → get_elem? xs i ≡ none
past_end xs i h = elim (Option-cases (get_elem? xs i)) [
  | inl out ↦ out
  | inr (x, found) ↦ absurd (omega (arith, length-get_elem? xs i found))
]

below_board :
    (board : Board) (row : ℕ) (column : ℕ) (disc : ℕ)
    → length board ≤ row
    → shows board (some row) (some column) disc ≡ false
unfolding shows
below_board board row column disc h = rw (past_end board row h, shows) refl

-- One step more makes no difference, going down the rows.
down :
    (left : ℕ) (board : Board) (row : ℕ) (column : Option ℕ) (column_step : Step) (disc : ℕ)
    → length board ≤ row + left
    → count_from left board (some row) column forth column_step disc
      ≡ count_from (suc left) board (some row) column forth column_step disc
unfolding count_from take_step
down left board row none column_step disc h = off_side left board row forth column_step disc
down zero board row (some column) column_step disc h =
    rw (below_board board row column disc (omega arith)) refl
down (suc left) board row (some column) column_step disc h =
    rw (down left board (row + 1) (take_step column_step column) column_step disc (omega arith))
      refl

-- Going up the rows.
up :
    (left : ℕ) (board : Board) (row : ℕ) (column : Option ℕ) (column_step : Step) (disc : ℕ)
    → row < left
    → count_from left board (some row) column back column_step disc
      ≡ count_from (suc left) board (some row) column back column_step disc
unfolding count_from take_step
up left board row none column_step disc h = off_side left board row back column_step disc
up zero board row (some column) column_step disc h = absurd (omega arith)
up (suc left) board zero (some column) column_step disc h =
    rw (off_board left board (take_step column_step column) back column_step disc) refl
up (suc left) board (suc row) (some column) column_step disc h =
    rw (up left board row (take_step column_step column) column_step disc (omega arith)) refl

-- Beside the board, all of whose rows have the same length, no cell shows a disc.
beside_board :
    (n : ℕ) (board : Board) (row column disc : ℕ)
    → rows_fit n board ≡ true
    → n ≤ column
    → shows board (some row) (some column) disc ≡ false
unfolding shows rows_fit
beside_board n [] row column disc fits h = refl
beside_board n (cells ∷ rows) zero column disc fits h =
    rw (past_end cells column (ground arith), shows) refl
beside_board n (cells ∷ rows) (suc row) column disc fits h =
    beside_board n rows row column disc (ground arith) h

-- Going right along a row.
right :
    (left n : ℕ) (board : Board) (row column disc : ℕ)
    → rows_fit n board ≡ true
    → n ≤ column + left
    → count_from left board (some row) (some column) stay forth disc
      ≡ count_from (suc left) board (some row) (some column) stay forth disc
unfolding count_from take_step
right zero n board row column disc fits h =
    rw (beside_board n board row column disc fits (omega arith)) refl
right (suc left) n board row column disc fits h =
    rw (right left n board row (column + 1) disc fits (omega arith)) refl

-- Going left along a row.
leftwards :
    (left : ℕ) (board : Board) (row column disc : ℕ)
    → column < left
    → count_from left board (some row) (some column) stay back disc
      ≡ count_from (suc left) board (some row) (some column) stay back disc
unfolding count_from take_step
leftwards zero board row column disc h = absurd (omega arith)
leftwards (suc left) board row zero disc h = rw (off_side left board row stay back disc) refl
leftwards (suc left) board row (suc column) disc h =
    rw (leftwards left board row column disc (omega arith)) refl

-- The steps that a direction may take.
abbrev moves : Step → Step → Bool
moves stay stay = false
moves _ _ = true

-- A step more than the board has room for makes no difference.
one_more :
    (left : ℕ) (board : Board) (row column : ℕ) (row_step column_step : Step) (disc : ℕ)
    → moves row_step column_step ≡ true
    → rows_fit (length (top board)) board ≡ true
    → row < length board
    → column < length (top board)
    → room board ≤ left
    → count_from left board
        (take_step row_step row)
        (take_step column_step column)
        row_step
        column_step
        disc
      ≡ count_from
          (suc left)
          board
          (take_step row_step row)
          (take_step column_step column)
          row_step
          column_step
          disc
unfolding take_step
one_more left board row column forth column_step disc m fits r c h =
    down left board (row + 1) (take_step column_step column) column_step disc (omega arith)
one_more left board zero column back column_step disc m fits r c h =
    off_board left board (take_step column_step column) back column_step disc
    ∙ sym (off_board (suc left) board (take_step column_step column) back column_step disc)
one_more left board (suc row) column back column_step disc m fits r c h =
    up left board row (take_step column_step column) column_step disc (omega arith)
one_more left board row column stay forth disc m fits r c h =
    right left (length (top board)) board row (column + 1) disc fits (omega arith)
one_more left board row zero stay back disc m fits r c h =
    off_side left board row stay back disc ∙ sym (off_side (suc left) board row stay back disc)
one_more left board row (suc column) stay back disc m fits r c h =
    leftwards left board row column disc (omega arith)
one_more left board row column stay stay disc m fits r c h = cc

-- The count of a direction has enough steps: from a cell of a rectangular board, with any steps more
-- than the rows and columns of the board the loop counts the same.
count_direction-enough :
    (more left : ℕ) (board : Board) (row column : ℕ) (row_step column_step : Step) (disc : ℕ)
    → moves row_step column_step ≡ true
    → rows_fit (length (top board)) board ≡ true
    → row < length board
    → column < length (top board)
    → left ≡ room board + more
    → count_from left board
        (take_step row_step row)
        (take_step column_step column)
        row_step
        column_step
        disc
      ≡ count_direction board row column row_step column_step disc
unfolding count_direction
count_direction-enough zero left board row column row_step column_step disc m fits r c e =
    ap
      (λ left.
        count_from left board (take_step row_step row) (take_step column_step column) row_step
          column_step disc)
      (omega arith)
count_direction-enough (suc more) zero board row column row_step column_step disc m fits r c e =
    absurd (omega arith)
count_direction-enough (suc more) (suc left) board row column row_step column_step disc m fits r c
      e =
    sym (one_more left board row column row_step column_step disc m fits r c (omega arith))
    ∙ count_direction-enough more left board row column row_step column_step disc m fits r c
        (omega arith)
