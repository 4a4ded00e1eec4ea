-- ===== src/Games/LiarsDice/Rules.antt =====
-- The rules engine of Liar's Dice, src/arena/games/liarsdice/rules.py, with its events.
pub mod Moves
pub mod Legal
pub mod Rolls
pub mod Length
pub mod Ends
use agents_arena.Prelude.{
  ℕ, zero, suc, ◌+◌, ◌-◌, Bool, true, false, not, ◌&&◌, ◌||◌, Option, none, some, List, [], ◌∷◌,
  ◌++◌, map, ltb, leb, ◌==◌, if◌then◌else◌,
}
use agents_arena.Core.Errors.{
  Result, ok, err, ◌>>=◌, ◌>>◌, raise_if, value_error, wrong_player, illegal_action, game_finished,
  chance_resolution_error, assertion_error,
}
use agents_arena.Core.Chance
use agents_arena.Core.Chance.{ChanceRng}
use agents_arena.Core.Engine.{
  GameTypes, Given, given, foreign, RuleResult, win, TransitionResult, RulesEngine,
}
use agents_arena.Games.LiarsDice.State.{
  LiarsDiceConfig, Bid, outranks, LiarsDiceAction, bid_move, call_move, Hands, Roll, Showdown,
  count_showing, make_showdown, LiarsDiceState, standing_bid, total_dice, is_none, is_seat,
  hand_fits, make_state, raises,
}

pub data LiarsDiceEvent : Type 0 where
  round_rolled : (round_number count0 count1 : ℕ) → LiarsDiceEvent
  dice_dealt : (seat : ℕ) (dice : List ℕ) → LiarsDiceEvent
  bid_made : (seat quantity face : ℕ) → LiarsDiceEvent
  bid_called : (seat : ℕ) (dice : Hands) (quantity face count loser : ℕ) → LiarsDiceEvent
  die_lost : (seat remaining : ℕ) → LiarsDiceEvent
  liars_dice_match_won : (winner_seat : ℕ) → LiarsDiceEvent

-- `None` is the public. A hand that was dealt is visible to its seat alone.
unfoldable pub visible_to : LiarsDiceEvent → Option ℕ → Bool
visible_to (dice_dealt seat dice) none = false
visible_to (dice_dealt seat dice) (some viewer) = viewer == seat
visible_to _ viewer = true

-- The state of a match before its first roll.
abbrev pub dealt_out : LiarsDiceConfig → LiarsDiceState
dealt_out config = record {
  dice = none;
  count0 = config.dice_per_seat;
  count1 = config.dice_per_seat;
  bids = [];
  current_seat = 0;
  round_number = 0;
  faces = config.faces;
  last_showdown = none;
}

unfoldable pub initial_state : Unit {0} → LiarsDiceConfig → Result (Unit {0} × LiarsDiceState)
initial_state engine config = do state ← make_state (dealt_out config); ok (engine, state)

unfoldable pub other_seat : ℕ → ℕ
other_seat seat = if seat == 0 then 1 else 0

-- The loop over the two counts: the first seat without dice has lost.
unfoldable pub result : LiarsDiceState → Option RuleResult
result state =
    if state.count0 == 0 then some (win 1) else if state.count1 == 0 then some (win 0) else none

unfoldable pub is_terminal : LiarsDiceState → Bool
unfolding result
is_terminal state = elim (result state) [ none ↦ false | some r ↦ true ]

unfoldable pub is_chance_node : LiarsDiceState → Bool
unfolding is_terminal
is_chance_node state = is_none state.dice && not (is_terminal state)

-- The bids of one quantity that raise the standing one: of `face`, and of as many faces after it.
bids_of : Option Bid → ℕ → ℕ → ℕ → List (Given LiarsDiceAction)
unfolding raises
bids_of standing quantity face zero = []
bids_of standing quantity face (suc left) =
    let rest = bids_of standing quantity (face + 1) left in
    let next : Bid = record { quantity = quantity; face = face } in
    if raises standing next then given (bid_move next) ∷ rest else rest

-- The bids of `quantity`, and of as many quantities after it.
bids_from : Option Bid → ℕ → ℕ → ℕ → List (Given LiarsDiceAction)
unfolding bids_of
bids_from standing faces quantity zero = []
bids_from standing faces quantity (suc left) =
    bids_of standing quantity 1 faces ++ bids_from standing faces (quantity + 1) left

calls : Option Bid → List (Given LiarsDiceAction)
calls none = []
calls (some standing) = given call_move ∷ []

unfoldable pub legal_actions : LiarsDiceState → ℕ → List (Given LiarsDiceAction)
unfolding is_terminal is_chance_node bids_from calls
legal_actions state seat =
    if is_terminal state || is_chance_node state || not (seat == state.current_seat)
    then []
    else calls standing ++ bids_from standing state.faces 1 (total_dice state)
  where
    standing : Option Bid
    standing = standing_bid state

check_move : LiarsDiceState → Given LiarsDiceAction → Result (Unit {0})
unfolding raises
check_move state foreign = err illegal_action
check_move state (given call_move) = raise_if (is_none (standing_bid state)) illegal_action
check_move state (given (bid_move b)) = do
  raise_if (not (leb 1 b.quantity && leb b.quantity (total_dice state))) illegal_action
  raise_if (not (leb 1 b.face && leb b.face state.faces)) illegal_action
  raise_if (not (raises (standing_bid state) b)) illegal_action

unfoldable pub validate_action : LiarsDiceState → ℕ → Given LiarsDiceAction → Result (Unit {0})
unfolding is_terminal is_chance_node check_move
validate_action state seat action = do
  raise_if (is_terminal state) game_finished
  raise_if (is_chance_node state) illegal_action
  raise_if (not (seat == state.current_seat)) wrong_player
  check_move state action

-- `c - 1 if s == loser else c`.
abbrev pub count_after : LiarsDiceState → ℕ → ℕ → ℕ
count_after state loser seat =
    let count = if seat == 0 then state.count0 else state.count1 in
    if seat == loser then count - 1 else count

abbrev pub loser_of : ℕ → Bid → Hands → ℕ
loser_of seat standing dice =
    if leb standing.quantity (count_showing standing.face dice) then seat else other_seat seat

-- What a call reveals.
abbrev pub shown_by : ℕ → Bid → Hands → Showdown
shown_by seat standing dice = record {
  caller = seat;
  bid = standing;
  dice = dice;
  count = count_showing standing.face dice;
  loser = loser_of seat standing dice;
}

-- What a call leads to, before the constructors check it.
abbrev pub called : LiarsDiceState → ℕ → Bid → Hands → LiarsDiceState
called state seat standing dice =
    let loser = loser_of seat standing dice in
    record {
      dice = none;
      count0 = count_after state loser 0;
      count1 = count_after state loser 1;
      bids = [];
      current_seat = if ltb 0 (count_after state loser loser) then loser else other_seat loser;
      round_number = state.round_number;
      faces = state.faces;
      last_showdown = some (shown_by seat standing dice);
    }

abbrev pub won_by : Option RuleResult → ℕ → List LiarsDiceEvent
won_by none winner = []
won_by (some r) winner = liars_dice_match_won winner ∷ []

-- What a call returns once the constructors have accepted the showdown and the next state.
abbrev called_turn :
    LiarsDiceState
    → ℕ
    → Bid
    → Hands
    → LiarsDiceState
    → TransitionResult LiarsDiceState LiarsDiceEvent
called_turn state seat standing dice next =
    let loser = loser_of seat standing dice in
    record {
      state = next;
      events =
          bid_called seat dice standing.quantity standing.face (count_showing standing.face dice)
            loser
          ∷ die_lost loser (count_after state loser loser)
          ∷ won_by (result next) (other_seat loser);
      result = result next;
    }

-- A call, with the standing bid and the dice that the source asserts.
reveal :
    LiarsDiceState
    → ℕ
    → Option Bid
    → Option Hands
    → Result (TransitionResult LiarsDiceState LiarsDiceEvent)
reveal state seat none dice = err assertion_error
reveal state seat (some standing) none = err assertion_error
reveal state seat (some standing) (some dice) = do
  showdown ← make_showdown (shown_by seat standing dice)
  next ← make_state (called state seat standing dice)
  ok (called_turn state seat standing dice next)

-- `replace` runs the checks of the constructor again.
apply_move :
    LiarsDiceState
    → ℕ
    → Given LiarsDiceAction
    → Result (TransitionResult LiarsDiceState LiarsDiceEvent)
unfolding reveal other_seat
apply_move state seat foreign = err illegal_action
apply_move state seat (given call_move) = reveal state seat (standing_bid state) state.dice
apply_move state seat (given (bid_move b)) = do
  next ← make_state (record state { bids = state.bids ++ b ∷ []; current_seat = other_seat seat })
  ok (record { state = next; events = bid_made seat b.quantity b.face ∷ []; result = none })

unfoldable pub apply_action :
    LiarsDiceState
    → ℕ
    → Given LiarsDiceAction
    → Result (TransitionResult LiarsDiceState LiarsDiceEvent)
unfolding apply_move
apply_action state seat action = do validate_action state seat action; apply_move state seat action

-- `d + 1`, which a batch of draws is mapped with.
abbrev pub faces_of : List ℕ → List ℕ
faces_of draws = map (λ d. d + 1) draws

-- `block` and `rounds` are those of `ChanceRng.draw`.
unfoldable pub sample_chance :
    (ℕ → ℕ → ℕ) → ℕ → LiarsDiceState → ChanceRng → Result (Given Roll × ChanceRng)
sample_chance block rounds state rng = do
  (first, rng1) ← Chance.draw_many block rounds rng state.faces state.count0
  (second, rng2) ← Chance.draw_many block rounds rng1 state.faces state.count1
  ok (given (record { dice = record { hand0 = faces_of first; hand1 = faces_of second } }), rng2)

-- The public counts, and each hand for its seat.
abbrev pub roll_events : LiarsDiceState → Hands → List LiarsDiceEvent
roll_events state dice =
    round_rolled (state.round_number + 1) state.count0 state.count1
    ∷ dice_dealt 0 dice.hand0
    ∷ dice_dealt 1 dice.hand1
    ∷ []

-- An outcome that is no roll of two hands is `foreign`.
unfoldable pub apply_chance :
    LiarsDiceState → Given Roll → Result (TransitionResult LiarsDiceState LiarsDiceEvent)
apply_chance state foreign = do
  raise_if (not (is_chance_node state)) chance_resolution_error
  err chance_resolution_error
apply_chance state (given outcome) = do
  raise_if (not (is_chance_node state)) chance_resolution_error
  raise_if (not (hand_fits state.faces state.count0 outcome.dice.hand0)) chance_resolution_error
  raise_if (not (hand_fits state.faces state.count1 outcome.dice.hand1)) chance_resolution_error
  next ←
      make_state (record state {
        dice = some outcome.dice;
        bids = [];
        round_number = state.round_number + 1;
      })
  ok (record { state = next; events = roll_events state outcome.dice; result = none })
