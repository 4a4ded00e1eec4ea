-- ===== src/Games/Pig.antt =====
-- Pig, src/arena/games/pig: a turn is a run of die rolls, each a chance node, ended by a 1 or by
-- holding. A `PigMove` holds one of two choices, so the choice is a data type here.
pub mod Turns
pub mod Rolls
use agents_arena.Prelude.{
  ℕ, suc, ◌+◌, Bool, true, false, not, ◌&&◌, ◌||◌, Option, none, some, List, [], ◌∷◌, ltb, leb,
  ◌==◌, if◌then◌else◌,
}
use agents_arena.Core.Errors.{
  Result, ok, err, ◌>>=◌, ◌>>◌, raise_if, value_error, wrong_player, illegal_action, game_finished,
  chance_resolution_error,
}
use agents_arena.Core.Chance
use agents_arena.Core.Chance.{ChanceRng}
use agents_arena.Core.Engine.{
  GameTypes, Given, given, foreign, RuleResult, win, TransitionResult, RulesEngine,
}

abbrev pub max_target_score : ℕ
max_target_score = 1000

abbrev pub die_faces : ℕ
die_faces = 6

abbrev pub bust_face : ℕ
bust_face = 1

pub record PigConfig : Type 0 where
  pub target_score : ℕ

unfoldable pub make_config : ℕ → Result PigConfig
make_config target_score = do
  raise_if (not (leb 1 target_score && leb target_score 1000)) value_error
  ok (record { target_score = target_score })

pub data PigMove : Type 0 where
  roll hold : PigMove

pub record DieRoll : Type 0 where
  pub face : ℕ

pub record PigState : Type 0 where
  -- The scores of seat 0 and of seat 1.
  pub score0 : ℕ
  pub score1 : ℕ
  pub current_seat : ℕ
  pub turn_total : ℕ
  pub roll_pending : Bool
  pub target_score : ℕ

-- `scores[seat]`, of the two seats.
abbrev pub score_of : PigState → ℕ → ℕ
score_of state seat = if seat == 0 then state.score0 else state.score1

-- A finished match rests with the winner to move and no turn open.
abbrev pub rests : PigState → ℕ → Bool
rests state winner = state.current_seat == winner && state.turn_total == 0 && not state.roll_pending

-- The checks of `__post_init__`, and the state if they pass.
unfoldable pub make_state : PigState → Result PigState
make_state state = do
  raise_if (not (state.current_seat == 0 || state.current_seat == 1)) value_error
  raise_if (not (leb 1 state.target_score && leb state.target_score max_target_score)) value_error
  raise_if (won0 && won1) value_error
  raise_if (won0 && not (rests state 0)) value_error
  raise_if (won1 && not (rests state 1)) value_error
  ok state
  where
    won0 : Bool
    won0 = leb state.target_score state.score0

    won1 : Bool
    won1 = leb state.target_score state.score1

pub data PigEvent : Type 0 where
  pig_roll_chosen : (seat : ℕ) → PigEvent
  pig_die_rolled : (seat face : ℕ) (busted : Bool) (turn_total : ℕ) → PigEvent
  pig_held : (seat banked score : ℕ) → PigEvent
  pig_match_won : (winner_seat : ℕ) → PigEvent

unfoldable pub initial_state : Unit {0} → PigConfig → Result (Unit {0} × PigState)
initial_state engine config = do
  state ← make_state (record {
    score0 = 0;
    score1 = 0;
    current_seat = 0;
    turn_total = 0;
    roll_pending = false;
    target_score = config.target_score;
  })
  ok (engine, state)

-- The first seat that has reached the target.
unfoldable pub result : PigState → Option RuleResult
result state =
    if leb state.target_score state.score0
    then some (win 0)
    else if leb state.target_score state.score1
    then some (win 1)
    else none

unfoldable pub is_terminal : PigState → Bool
unfolding result
is_terminal state = elim (result state) [ none ↦ false | some r ↦ true ]

unfoldable pub legal_actions : PigState → ℕ → List (Given PigMove)
unfolding is_terminal
legal_actions state seat =
    if is_terminal state || state.roll_pending || not (seat == state.current_seat)
    then []
    else if state.turn_total == 0
    then given roll ∷ []
    else given roll ∷ given hold ∷ []

check_choice : PigState → Given PigMove → Result (Unit {0})
check_choice state foreign = err illegal_action
check_choice state (given roll) = ok tt
check_choice state (given hold) = raise_if (state.turn_total == 0) illegal_action

unfoldable pub validate_action : PigState → ℕ → Given PigMove → Result (Unit {0})
unfolding is_terminal check_choice
validate_action state seat action = do
  raise_if (is_terminal state) game_finished
  raise_if state.roll_pending illegal_action
  raise_if (not (seat == state.current_seat)) wrong_player
  check_choice state action

unfoldable pub other_seat : ℕ → ℕ
other_seat seat = if seat == 0 then 1 else 0

-- The scores with the score of one seat replaced, the turn's points gone.
unfoldable pub with_score : PigState → ℕ → ℕ → PigState
with_score state seat score =
    if seat == 0
    then record state { score0 = score; turn_total = 0 }
    else record state { score1 = score; turn_total = 0 }

-- Holding banks the turn's points.
bank : PigState → ℕ → Result (TransitionResult PigState PigEvent)
unfolding result with_score other_seat
bank state seat =
    let score = score_of state seat + state.turn_total in
    let held = pig_held seat state.turn_total score in
    let banked = with_score state seat score in
    if leb state.target_score score
    then (do
      next ← make_state banked
      ok (record { state = next; events = held ∷ pig_match_won seat ∷ []; result = result next }))
    else (do
      next ← make_state (record banked { current_seat = other_seat seat })
      ok (record { state = next; events = held ∷ []; result = result next }))

apply_choice : PigState → ℕ → Given PigMove → Result (TransitionResult PigState PigEvent)
unfolding bank
apply_choice state seat foreign = err illegal_action
apply_choice state seat (given roll) = do
  next ← make_state (record state { roll_pending = true })
  ok (record { state = next; events = pig_roll_chosen seat ∷ []; result = none })
apply_choice state seat (given hold) = bank state seat

unfoldable pub apply_action :
    PigState → ℕ → Given PigMove → Result (TransitionResult PigState PigEvent)
unfolding apply_choice
apply_action state seat action = do
  validate_action state seat action
  apply_choice state seat action

unfoldable pub is_chance_node : PigState → Bool
unfolding is_terminal
is_chance_node state = state.roll_pending && not (is_terminal state)

-- `block` and `rounds` are those of `ChanceRng.draw`.
unfoldable pub sample_chance : (ℕ → ℕ → ℕ) → ℕ → PigState → ChanceRng → Result (DieRoll × ChanceRng)
sample_chance block rounds state rng = do
  (value, rng') ← Chance.draw block rounds rng die_faces
  ok (record { face = value + 1 }, rng')

-- The state after the die has landed, before the constructor checks it.
landed : PigState → ℕ → PigState
unfolding other_seat
landed state face =
    if face == bust_face
    then record state {
      roll_pending = false;
      turn_total = 0;
      current_seat = other_seat state.current_seat;
    }
    else record state { roll_pending = false; turn_total = state.turn_total + face }

unfoldable pub apply_chance : PigState → DieRoll → Result (TransitionResult PigState PigEvent)
unfolding landed
apply_chance state outcome = do
  raise_if (not (is_chance_node state)) chance_resolution_error
  raise_if (not (leb 1 outcome.face && leb outcome.face die_faces)) chance_resolution_error
  next ← make_state (landed state outcome.face)
  ok (record {
    state = next;
    events =
        pig_die_rolled state.current_seat outcome.face (outcome.face == bust_face) next.turn_total
        ∷ [];
    result = none;
  })

pub record PigObservation : Type 0 where
  pub seat : ℕ
  pub score0 : ℕ
  pub score1 : ℕ
  pub current_seat : ℕ
  pub turn_total : ℕ
  pub target_score : ℕ
  pub legal_actions : List (Given PigMove)

unfoldable pub observation : PigState → ℕ → Result PigObservation
unfolding legal_actions
observation state seat = ok (record {
  seat = seat;
  score0 = state.score0;
  score1 = state.score1;
  current_seat = state.current_seat;
  turn_total = state.turn_total;
  target_score = state.target_score;
  legal_actions = legal_actions state seat;
})

abbrev pub pig_types : Type 0 → GameTypes
pig_types Json = record {
  Engine = Unit {0};
  Config = PigConfig;
  State = PigState;
  Action = Given PigMove;
  Outcome = DieRoll;
  Event = PigEvent;
  Observation = PigObservation;
  Json = Json;
}

abbrev pub pig_rules : (ℕ → ℕ → ℕ) → ℕ → (Json : Type 0) → RulesEngine (pig_types Json)
pig_rules block rounds Json = record {
  initial_state = initial_state;
  current_seat = λ engine state. state.current_seat;
  legal_actions = λ engine. legal_actions;
  validate_action = λ engine. validate_action;
  apply_action = λ engine. apply_action;
  is_terminal = λ engine. is_terminal;
  result = λ engine. result;
  observation = λ engine. observation;
  public_state_hook = none;
  is_chance_node_hook = some (λ engine. is_chance_node);
  sample_chance_hook = some (λ engine. sample_chance block rounds);
  apply_chance_hook = some (λ engine. apply_chance);
  acting_seats_hook = none;
  apply_joint_action_hook = none;
}
