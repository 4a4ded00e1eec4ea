-- ===== src/Games/Connect4/Rules/Drops.antt =====
-- Dropping a disc in Connect Four, src/arena/games/connect4/rules.py: the rows of the board from the
-- top down, one column of it at a time.
use agents_arena.Prelude.{
  ℕ, zero, suc, ◌+◌, ◌≤◌, ◌<◌, ◌≡◌, refl, ap, ◌⊎◌, inl, inr, Bool, Bool-cases, true, false,
  Option-cases, none, some, List, [], ◌∷◌, arith, all, length, get_elem?, leb, ◌==◌, ==→≡,
  if◌then◌else◌,
}
use agents_arena.Games.Connect4.State.{Board, empty_cell, rows_fit, top}
use agents_arena.Games.Connect4.Rules.{is_open, drop_row, row_with_disc, rows_with_disc}

-- The empty cells of a row, and of a board.
abbrev pub empty_in : List ℕ → ℕ
empty_in [] = 0
empty_in (cell ∷ cells) = (if cell == empty_cell then 1 else 0) + empty_in cells

abbrev pub empty_cells : Board → ℕ
empty_cells [] = 0
empty_cells (row ∷ rows) = empty_in row + empty_cells rows

row_kept : (i column disc : ℕ) (cells : List ℕ) → row_with_disc i false column disc cells ≡ cells
unfolding row_with_disc
row_kept i column disc [] = refl
row_kept i column disc (cell ∷ cells) = ap (λ r. cell ∷ r) (row_kept (i + 1) column disc cells)

row_passed :
    (i column disc : ℕ) (cells : List ℕ)
    → column < i
    → row_with_disc i true column disc cells ≡ cells
unfolding row_with_disc
row_passed i column disc [] h = refl
row_passed i column disc (cell ∷ cells) h = ground (arith, row_passed (i + 1) column disc cells)

length-row_with_disc :
    (i : ℕ) (here : Bool) (column disc : ℕ) (cells : List ℕ)
    → length (row_with_disc i here column disc cells) ≡ length cells
unfolding row_with_disc
length-row_with_disc i here column disc [] = refl
length-row_with_disc i here column disc (cell ∷ cells) =
    ap suc (length-row_with_disc (i + 1) here column disc cells)

cells_fit-row_with_disc :
    (i : ℕ) (here : Bool) (column disc : ℕ) (cells : List ℕ)
    → disc ≤ 2
    → all (λ cell. leb cell 2) cells ≡ true
    → all (λ cell. leb cell 2) (row_with_disc i here column disc cells) ≡ true
unfolding row_with_disc
cells_fit-row_with_disc i here column disc [] d h = refl
cells_fit-row_with_disc i here column disc (cell ∷ cells) d h =
    ground (arith, cells_fit-row_with_disc (i + 1) here column disc cells d)

rows_passed :
    (i row column disc : ℕ) (rows : Board) → row < i → rows_with_disc i row column disc rows ≡ rows
unfolding rows_with_disc
rows_passed i row column disc [] h = refl
rows_passed i row column disc (cells ∷ rows) h = elim (Bool-cases (i == row)) [
  | inl here ↦ absurd (omega (arith, ==→≡ i row here))
  | inr there ↦
      rw
        (
          there,
          row_kept 0 column disc cells,
          rows_passed (i + 1) row column disc rows (omega arith),
        )
        refl
]

pub rows_fit-rows_with_disc :
    (n i row column disc : ℕ) (rows : Board)
    → disc ≤ 2
    → rows_fit n rows ≡ true
    → rows_fit n (rows_with_disc i row column disc rows) ≡ true
unfolding rows_fit rows_with_disc
rows_fit-rows_with_disc n i row column disc [] d h = refl
rows_fit-rows_with_disc n i row column disc (cells ∷ rows) d h =
    rw (length-row_with_disc 0 (i == row) column disc cells) ground (
      arith,
      cells_fit-row_with_disc 0 (i == row) column disc cells d,
      rows_fit-rows_with_disc n (i + 1) row column disc rows d,
    )

-- Dropping into an open cell of a row takes one empty cell away.
empty_in-row_with_disc :
    (i column k disc : ℕ) (cells : List ℕ)
    → 1 ≤ disc
    → column ≡ i + k
    → get_elem? cells k ≡ some 0
    → empty_in (row_with_disc i true column disc cells) + 1 ≡ empty_in cells
unfolding row_with_disc
empty_in-row_with_disc i column k disc [] d e h = cc
empty_in-row_with_disc i column zero disc (cell ∷ cells) d e h =
    let here : (i == column) ≡ true = ground arith in
    rw (here, row_passed (i + 1) column disc cells (omega arith)) ground arith
empty_in-row_with_disc i column (suc k) disc (cell ∷ cells) d e h =
    let there : (i == column) ≡ false = ground arith in
    rw there (omega (arith, empty_in-row_with_disc (i + 1) column k disc cells d (omega arith) h))

open_cell :
    (cells : List ℕ) (column : ℕ) → is_open cells column ≡ true → get_elem? cells column ≡ some 0
unfolding is_open
open_cell cells column h = elim (Option-cases (get_elem? cells column)) [
  | inl out ↦ ground arith
  | inr (cell, found) ↦ ground arith
]

disc-row_with_disc :
    (i column k disc : ℕ) (cells : List ℕ) {cell : ℕ}
    → column ≡ i + k
    → get_elem? cells k ≡ some cell
    → get_elem? (row_with_disc i true column disc cells) k ≡ some disc
unfolding row_with_disc
disc-row_with_disc i column k disc [] e h = cc
disc-row_with_disc i column zero disc (cell ∷ cells) e h =
    let here : (i == column) ≡ true = ground arith in rw here refl
disc-row_with_disc i column (suc k) disc (cell ∷ cells) e h =
    disc-row_with_disc (i + 1) column k disc cells (omega arith) h

-- The row that a disc lands in: a deeper one, or this one.
landing :
    (cells : List ℕ) (rows : Board) (column r : ℕ)
    → drop_row (cells ∷ rows) column ≡ some r
    → ((below : ℕ) × (drop_row rows column ≡ some below) × (r ≡ suc below))
      ⊎ ((drop_row rows column ≡ none) × (is_open cells column ≡ true) × (r ≡ 0))
unfolding drop_row
landing cells rows column r h = elim (Option-cases (drop_row rows column)) [
  | inl full ↦ inr (ground arith)
  | inr (below, found) ↦ inl (below, found, ground arith)
]

-- A drop takes one empty cell away.
pub empty_cells-rows_with_disc :
    (i row column disc r : ℕ) (rows : Board)
    → 1 ≤ disc
    → row ≡ i + r
    → drop_row rows column ≡ some r
    → empty_cells (rows_with_disc i row column disc rows) + 1 ≡ empty_cells rows
unfolding rows_with_disc
empty_cells-rows_with_disc i row column disc r [] d e h = unfold drop_row in cc
empty_cells-rows_with_disc i row column disc r (cells ∷ rows) d e h =
    elim (landing cells rows column r h) [
      | inl (below, found, deeper) ↦
          let there : (i == row) ≡ false = ground arith in
          rw (there, row_kept 0 column disc cells)
            (omega (
              arith,
              empty_cells-rows_with_disc (i + 1) row column disc below rows d (omega arith) found,
            ))
      | inr (full, free, top) ↦
          let here : (i == row) ≡ true = ground arith in
          rw (here, rows_passed (i + 1) row column disc rows (omega arith))
            (omega (
              arith,
              empty_in-row_with_disc 0 column column disc cells d (omega arith)
                  (open_cell cells column free),
            ))
    ]

-- A column whose top cell is empty has a row to land in.
pub drop_row-top :
    (cells : List ℕ) (rows : Board) (column : ℕ)
    → is_open cells column ≡ true
    → (r : ℕ) × (drop_row (cells ∷ rows) column ≡ some r)
unfolding drop_row
drop_row-top cells rows column h = elim (Option-cases (drop_row rows column)) [
  | inl full ↦ (0, rw (full, h) refl)
  | inr (below, found) ↦ (suc below, rw found refl)
]

-- The row of a drop holds the disc afterwards.
pub cell-rows_with_disc :
    (i row column disc r : ℕ) (rows : Board)
    → row ≡ i + r
    → drop_row rows column ≡ some r
    → (cells : List ℕ) × (get_elem? (rows_with_disc i row column disc rows) r ≡ some cells)
      × (get_elem? cells column ≡ some disc)
unfolding rows_with_disc
cell-rows_with_disc i row column disc r [] e h = unfold drop_row in cc
cell-rows_with_disc i row column disc r (cells ∷ rows) e h = elim (landing cells rows column r h) [
  | inl (below, found, deeper) ↦
      rw deeper (cell-rows_with_disc (i + 1) row column disc below rows (omega arith) found)
  | inr (full, free, top) ↦
      let here : (i == row) ≡ true = ground arith in
      (
        row_with_disc 0 true column disc cells,
        rw (top, here) refl,
        disc-row_with_disc 0 column column disc cells (omega arith) (open_cell cells column free),
      )
]

-- The board keeps its height and its width.
pub length-rows_with_disc :
    (i row column disc : ℕ) (rows : Board)
    → length (rows_with_disc i row column disc rows) ≡ length rows
unfolding rows_with_disc
length-rows_with_disc i row column disc [] = refl
length-rows_with_disc i row column disc (cells ∷ rows) =
    ap suc (length-rows_with_disc (i + 1) row column disc rows)

pub length-top :
    (row column disc : ℕ) (rows : Board)
    → length (top (rows_with_disc 0 row column disc rows)) ≡ length (top rows)
unfolding rows_with_disc top
length-top row column disc [] = refl
length-top row column disc (cells ∷ rows) = length-row_with_disc 0 (0 == row) column disc cells

pub cell_open :
    (cells : List ℕ) (column : ℕ) → get_elem? cells column ≡ some 0 → is_open cells column ≡ true
unfolding is_open
cell_open cells column h = rw (h, is_open) refl
