-- ===== src/Games/LiarsDice/Valid.antt =====
-- The states of Liar's Dice that the constructor accepts: src/arena/games/liarsdice/state.py.
use agents_arena.Prelude.{
  ℕ, ◌+◌, ◌≤◌, ◌≡◌, refl, ◌⊎◌, true, Option, none, some, List, [], ◌∷◌, arith,
}
use agents_arena.Core.Errors.{ok}
use agents_arena.Games.LiarsDice.State.{
  LiarsDiceState, is_empty, Hands, Showdown, Bid, hand_fits, showdown_fits, dice_fit, bids_rise,
  max_dice_per_seat, max_faces, min_faces, make_state, total_dice,
}

-- A round that waits for its roll has no bids; in a round that is dealt both seats hold as many
-- dice as they have left.
unfoldable pub Dealt : LiarsDiceState → Option Hands → Type 0
Dealt s none = s.bids ≡ []
Dealt s (some dice) =
    (1 ≤ s.round_number)
    × (1 ≤ s.count0)
    × (1 ≤ s.count1)
    × (hand_fits s.faces s.count0 dice.hand0 ≡ true)
    × (hand_fits s.faces s.count1 dice.hand1 ≡ true)

unfoldable pub Shown : ℕ → ℕ → Option Showdown → Type 0
Shown round_number faces none = Unit {0}
Shown round_number faces (some showdown) =
    (1 ≤ round_number) × (showdown_fits faces (some showdown) ≡ true)

pub record IsValid (s : LiarsDiceState) : Type 0 where
  pub faces : (min_faces ≤ s.faces) × (s.faces ≤ max_faces)
  pub seat : (s.current_seat ≡ 0) ⊎ (s.current_seat ≡ 1)
  pub counts : (s.count0 ≤ max_dice_per_seat) × (s.count1 ≤ max_dice_per_seat)
  pub dice_left : 1 ≤ s.count0 + s.count1
  pub winner0 : s.count1 ≡ 0 → s.current_seat ≡ 0
  pub winner1 : s.count0 ≡ 0 → s.current_seat ≡ 1
  pub dealt : Dealt s s.dice
  pub shown : Shown s.round_number s.faces s.last_showdown
  pub rise : bids_rise (total_dice s) s.faces none s.bids ≡ true

accepts :
    (s : LiarsDiceState) (dice : Option Hands) (showdown : Option Showdown)
    → s.dice ≡ dice
    → s.last_showdown ≡ showdown
    → IsValid s
    → Dealt s dice
    → Shown s.round_number s.faces showdown
    → make_state s ≡ ok s
unfolding make_state Dealt Shown dice_fit
accepts s none none d l v deal shown = rw (d, l, v.rise, deal) ground arith
accepts s none (some x) d l v deal shown = rw (d, l, v.rise, deal, shown.1) ground arith
accepts s (some dice) none d l v deal shown = rw (d, l, v.rise, deal.3, deal.4) ground arith
accepts s (some dice) (some x) d l v deal shown =
    rw (d, l, v.rise, deal.3, deal.4, shown.1) ground arith

pub make_state-valid : (s : LiarsDiceState) → IsValid s → make_state s ≡ ok s
make_state-valid s v = accepts s s.dice s.last_showdown refl refl v v.dealt v.shown

no_bids : (bids : List Bid) → is_empty bids ≡ true → bids ≡ []
no_bids [] h = refl
no_bids (b ∷ bids) h = cc

make_state-Dealt :
    (s : LiarsDiceState) (dice : Option Hands) → s.dice ≡ dice → make_state s ≡ ok s → Dealt s dice
unfolding make_state dice_fit Dealt
make_state-Dealt s none d h = let h' = rw d at h in no_bids s.bids (ground arith)
make_state-Dealt s (some dice) d h =
    let h' = rw d at h in (ground arith, ground arith, ground arith, ground arith, ground arith)

make_state-Shown :
    (s : LiarsDiceState) (showdown : Option Showdown)
    → s.last_showdown ≡ showdown
    → make_state s ≡ ok s
    → Shown s.round_number s.faces showdown
unfolding make_state Shown
make_state-Shown s none l h = tt
make_state-Shown s (some x) l h = let h' = rw l at h in (ground arith, ground arith)

-- The constructor accepts no other state.
pub make_state-IsValid : (s : LiarsDiceState) → make_state s ≡ ok s → IsValid s
unfolding make_state
make_state-IsValid s h = record {
  faces = ground arith;
  seat = ground arith;
  counts = ground arith;
  dice_left = ground arith;
  winner0 = ground arith;
  winner1 = ground arith;
  dealt = make_state-Dealt s s.dice refl h;
  shown = make_state-Shown s s.last_showdown refl h;
  rise = ground arith;
}

-- It returns the state that it was given.
pub make_state-same : (s : LiarsDiceState) {t : LiarsDiceState} → make_state s ≡ ok t → t ≡ s
unfolding make_state
make_state-same s h = ground arith
