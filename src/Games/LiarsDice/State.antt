-- ===== src/Games/LiarsDice/State.antt =====
-- The configuration, the bids and the state of Liar's Dice, with the checks of their constructors:
-- src/arena/games/liarsdice, config.py, actions.py and state.py. The two hands of `Hands` are two
-- fields here, and so are the two `dice_counts`.
use agents_arena.Prelude.{
  ℕ, ◌+◌, ◌-◌, Bool, true, false, not, ◌&&◌, ◌||◌, Option, none, some, List, [], ◌∷◌, all, ltb, leb,
  length, ◌==◌, if◌then◌else◌,
}
use agents_arena.Core.Errors.{Result, ok, ◌>>◌, raise_if, value_error}

abbrev pub min_faces : ℕ
min_faces = 2

abbrev pub max_faces : ℕ
max_faces = 9

abbrev pub max_dice_per_seat : ℕ
max_dice_per_seat = 6

pub record LiarsDiceConfig : Type 0 where
  pub dice_per_seat : ℕ
  pub faces : ℕ

-- The bounds that the configuration's fields declare.
unfoldable pub make_config : ℕ → ℕ → Result LiarsDiceConfig
make_config dice_per_seat faces = do
  raise_if (not (leb 1 dice_per_seat && leb dice_per_seat 6)) value_error
  raise_if (not (leb 2 faces && leb faces 9)) value_error
  ok (record { dice_per_seat = dice_per_seat; faces = faces })

pub record Bid : Type 0 where
  pub quantity : ℕ
  pub face : ℕ

unfoldable pub make_bid : ℕ → ℕ → Result Bid
make_bid quantity face = do
  raise_if (ltb quantity 1) value_error
  raise_if (ltb face 1) value_error
  ok (record { quantity = quantity; face = face })

-- The comparison of the two pairs.
unfoldable pub outranks : Bid → Bid → Bool
outranks bid other =
    ltb other.quantity bid.quantity || (bid.quantity == other.quantity && ltb other.face bid.face)

-- The actions: a bid, or a call of the standing one.
pub data LiarsDiceAction : Type 0 where
  bid_move : Bid → LiarsDiceAction
  call_move : LiarsDiceAction

pub record Hands : Type 0 where
  pub hand0 : List ℕ
  pub hand1 : List ℕ

pub record Roll : Type 0 where
  pub dice : Hands

pub record Showdown : Type 0 where
  pub caller : ℕ
  pub bid : Bid
  pub dice : Hands
  pub count : ℕ
  pub loser : ℕ

-- How many dice of a hand show a face.
unfoldable pub showing : ℕ → List ℕ → ℕ
showing face [] = 0
showing face (die ∷ dice) = (if die == face then 1 else 0) + showing face dice

-- `sum(die == face for hand in dice for die in hand)`.
abbrev pub count_showing : ℕ → Hands → ℕ
count_showing face dice = showing face dice.hand0 + showing face dice.hand1

abbrev pub is_seat : ℕ → Bool
is_seat seat = seat == 0 || seat == 1

-- The checks of the `__post_init__` of `Showdown`, and the showdown if they pass.
unfoldable pub make_showdown : Showdown → Result Showdown
make_showdown showdown = do
  raise_if (not (is_seat showdown.caller && is_seat showdown.loser)) value_error
  raise_if (not (showdown.count == actual)) value_error
  raise_if (not (showdown.loser == follows)) value_error
  ok showdown
  where
    actual : ℕ
    actual = count_showing showdown.bid.face showdown.dice

    follows : ℕ
    follows = if leb showdown.bid.quantity actual then showdown.caller else 1 - showdown.caller

pub record LiarsDiceState : Type 0 where
  pub dice : Option Hands
  -- The dice that seat 0 and seat 1 have left.
  pub count0 : ℕ
  pub count1 : ℕ
  pub bids : List Bid
  pub current_seat : ℕ
  pub round_number : ℕ
  pub faces : ℕ
  pub last_showdown : Option Showdown

-- `bids[-1] if bids else None`, with what stands before the bids.
unfoldable pub standing_from : Option Bid → List Bid → Option Bid
standing_from previous [] = previous
standing_from previous (bid ∷ bids) = standing_from (some bid) bids

abbrev pub standing_bid : LiarsDiceState → Option Bid
standing_bid state = standing_from none state.bids

abbrev pub total_dice : LiarsDiceState → ℕ
total_dice state = state.count0 + state.count1

abbrev pub is_none {ℓ} : {A : Type ℓ} → Option A → Bool
is_none none = true
is_none (some a) = false

abbrev pub is_empty {ℓ} : {A : Type ℓ} → List A → Bool
is_empty [] = true
is_empty (x ∷ xs) = false

-- Every die of a hand shows a face from 1 on.
abbrev pub shows_faces : ℕ → List ℕ → Bool
shows_faces faces hand = all (λ die. leb 1 die && leb die faces) hand

-- A hand of `count` dice, each with a face of this game.
unfoldable pub hand_fits : ℕ → ℕ → List ℕ → Bool
hand_fits faces count hand = length hand == count && shows_faces faces hand

-- The hand that a showdown reveals.
unfoldable pub revealed_fits : ℕ → List ℕ → Bool
revealed_fits faces hand =
    leb 1 (length hand) && leb (length hand) max_dice_per_seat && shows_faces faces hand

unfoldable pub showdown_fits : ℕ → Option Showdown → Bool
unfolding revealed_fits
showdown_fits faces none = true
showdown_fits faces (some showdown) =
    leb showdown.bid.face faces
    && revealed_fits faces showdown.dice.hand0
    && revealed_fits faces showdown.dice.hand1

unfoldable pub dice_fit : ℕ → ℕ → ℕ → Option Hands → Bool
unfolding hand_fits
dice_fit faces count0 count1 none = true
dice_fit faces count0 count1 (some dice) =
    hand_fits faces count0 dice.hand0 && hand_fits faces count1 dice.hand1

unfoldable pub raises : Option Bid → Bid → Bool
unfolding outranks
raises none bid = true
raises (some previous) bid = outranks bid previous

-- The loop over the bids of a round: none above the dice in play or the faces, each above the one
-- before it.
unfoldable pub bids_rise : ℕ → ℕ → Option Bid → List Bid → Bool
unfolding raises
bids_rise total faces previous [] = true
bids_rise total faces previous (bid ∷ bids) =
    leb bid.quantity total
    && leb bid.face faces
    && raises previous bid
    && bids_rise total faces (some bid) bids

-- The checks of the `__post_init__` of the state, and the state if they pass.
unfoldable pub make_state : LiarsDiceState → Result LiarsDiceState
unfolding showdown_fits dice_fit bids_rise
make_state state = do
  raise_if (not (leb min_faces state.faces && leb state.faces max_faces)) value_error
  raise_if (not undealt && ltb state.round_number 1) value_error
  raise_if (not (is_seat state.current_seat)) value_error
  raise_if (not (leb state.count0 max_dice_per_seat && leb state.count1 max_dice_per_seat))
      value_error
  raise_if (state.count0 == 0 && state.count1 == 0) value_error
  raise_if (finished && not (state.current_seat == most)) value_error
  raise_if ((finished || undealt) && not (is_empty state.bids)) value_error
  raise_if (finished && not undealt) value_error
  raise_if (state.round_number == 0 && not (is_none state.last_showdown)) value_error
  raise_if (not (showdown_fits state.faces state.last_showdown)) value_error
  raise_if (not (dice_fit state.faces state.count0 state.count1 state.dice)) value_error
  raise_if (not (bids_rise (total_dice state) state.faces none state.bids)) value_error
  ok state
  where
    undealt : Bool
    undealt = is_none state.dice

    finished : Bool
    finished = state.count0 == 0 || state.count1 == 0

    -- `dice_counts.index(max(dice_counts))`.
    most : ℕ
    most = if leb state.count1 state.count0 then 0 else 1
