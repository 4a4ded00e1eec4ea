-- ===== src/Games/Nim.antt =====
-- Nim, src/arena/games/nim: the state with the checks of its constructor, and the rules engine. The
-- engine object holds the configuration that `initial_state` stored last.
pub mod Legal
pub mod Moves
pub mod Length
pub mod Definition
pub mod Policies
use agents_arena.Prelude.{
  ℕ, zero, suc, ◌+◌, ◌-◌, Bool, true, false, not, ◌&&◌, ◌||◌, Option, none, some, List, [], ◌∷◌,
  ◌++◌, replicate, all, length, get_elem?, ltb, leb, ◌==◌, if◌then◌else◌,
}
use agents_arena.Core.Errors.{
  Result, ok, err, ◌>>=◌, ◌>>◌, raise_if, value_error, wrong_player, illegal_action, game_finished,
  index_error,
}
use agents_arena.Core.Engine.{
  GameTypes, Given, given, foreign, RuleResult, win, TransitionResult, RulesEngine,
}

pub record NimConfig : Type 0 where
  pub num_piles : ℕ
  pub max_pile_size : ℕ

-- The bounds that the configuration's fields declare.
unfoldable pub make_config : ℕ → ℕ → Result NimConfig
make_config num_piles max_pile_size = do
  raise_if (not (leb 1 num_piles && leb num_piles 20)) value_error
  raise_if (not (leb 1 max_pile_size && leb max_pile_size 100)) value_error
  ok (record { num_piles = num_piles; max_pile_size = max_pile_size })

pub record NimState : Type 0 where
  pub piles : List ℕ
  pub current_seat : ℕ

-- The constructor with the checks of `__post_init__`. Pile sizes are numbers here, never negative.
unfoldable pub make_state : List ℕ → ℕ → Result NimState
make_state [] current_seat = err value_error
make_state (pile ∷ piles) current_seat = do
  raise_if (not (current_seat == 0 || current_seat == 1)) value_error
  ok (record { piles = pile ∷ piles; current_seat = current_seat })

pub record TakeObjects : Type 0 where
  pub pile_index : ℕ
  pub count : ℕ

unfoldable pub make_take : ℕ → ℕ → Result TakeObjects
make_take pile_index count = do
  raise_if (ltb count 1) value_error
  ok (record { pile_index = pile_index; count = count })

pub data NimEvent : Type 0 where
  nim_objects_taken : (seat pile_index count : ℕ) (remaining : List ℕ) → NimEvent
  nim_match_won : (winner_seat : ℕ) → NimEvent

abbrev pub is_zero : ℕ → Bool
is_zero size = size == 0

unfoldable pub initial_state : NimConfig → NimConfig → Result (NimConfig × NimState)
unfolding make_state
initial_state engine config = do
  state ← make_state (replicate config.num_piles config.max_pile_size) 0
  ok (config, state)

-- `current_seat` holds the winner once every pile is empty.
unfoldable pub result : NimConfig → NimState → Option RuleResult
result engine state = if all is_zero state.piles then some (win state.current_seat) else none

unfoldable pub is_terminal : NimConfig → NimState → Bool
unfolding result
is_terminal engine state = elim (result engine state) [ none ↦ false | some r ↦ true ]

unfoldable pub other_seat : ℕ → ℕ
other_seat seat = if seat == 0 then 1 else 0

-- The actions on one pile: from `count` on, as many as `left`.
takes : ℕ → ℕ → ℕ → List (Given TakeObjects)
takes pile_index count zero = []
takes pile_index count (suc left) =
    given (record { pile_index = pile_index; count = count }) ∷ takes pile_index (count + 1) left

-- The two nested loops, from the pile with index `pile_index` on.
pile_actions : ℕ → List ℕ → List (Given TakeObjects)
unfolding takes
pile_actions pile_index [] = []
pile_actions pile_index (size ∷ sizes) =
    takes pile_index 1 size ++ pile_actions (pile_index + 1) sizes

unfoldable pub legal_actions : NimConfig → NimState → ℕ → List (Given TakeObjects)
unfolding is_terminal pile_actions
legal_actions engine state seat =
    if is_terminal engine state || not (seat == state.current_seat)
    then []
    else pile_actions 0 state.piles

-- `state.piles[pile_index]`.
pile_at : List ℕ → ℕ → Result ℕ
pile_at piles i = elim (get_elem? piles i) [ none ↦ err index_error | some size ↦ ok size ]

pub check_take : NimState → Given TakeObjects → Result (Unit {0})
unfolding pile_at
check_take state foreign = err illegal_action
check_take state (given action) = do
  raise_if (leb (length state.piles) action.pile_index) illegal_action
  pile_size ← pile_at state.piles action.pile_index
  raise_if (ltb action.count 1 || ltb pile_size action.count) illegal_action

unfoldable pub validate_action : NimConfig → NimState → ℕ → Given TakeObjects → Result (Unit {0})
unfolding is_terminal check_take
validate_action engine state seat action = do
  raise_if (is_terminal engine state) game_finished
  raise_if (not (seat == state.current_seat)) wrong_player
  check_take state action

-- `size - action.count if i == action.pile_index else size`, with `i` counted from the first argument.
pub take_from : ℕ → TakeObjects → List ℕ → List ℕ
take_from i action [] = []
take_from i action (size ∷ sizes) =
    (if i == action.pile_index then size - action.count else size) ∷ take_from (i + 1) action sizes

-- What follows the validation.
pub move : ℕ → TakeObjects → List ℕ → Result (TransitionResult NimState NimEvent)
unfolding make_state other_seat
move seat action new_piles =
    let taken = nim_objects_taken seat action.pile_index action.count new_piles in
    if all is_zero new_piles
    then (do
      state ← make_state new_piles seat
      ok (record {
        state = state;
        events = taken ∷ nim_match_won seat ∷ [];
        result = some (win seat);
      }))
    else (do
      state ← make_state new_piles (other_seat seat)
      ok (record { state = state; events = taken ∷ []; result = none }))

apply_take : NimState → ℕ → Given TakeObjects → Result (TransitionResult NimState NimEvent)
unfolding move take_from
apply_take state seat foreign = err illegal_action
apply_take state seat (given action) = move seat action (take_from 0 action state.piles)

unfoldable pub apply_action :
    NimConfig → NimState → ℕ → Given TakeObjects → Result (TransitionResult NimState NimEvent)
unfolding validate_action apply_take
apply_action engine state seat action = do
  validate_action engine state seat action
  apply_take state seat action

pub record NimObservation : Type 0 where
  pub seat : ℕ
  pub piles : List ℕ
  pub current_seat : ℕ
  pub legal_actions : List (Given TakeObjects)

unfoldable pub observation : NimConfig → NimState → ℕ → Result NimObservation
unfolding legal_actions
observation engine state seat = ok (record {
  seat = seat;
  piles = state.piles;
  current_seat = state.current_seat;
  legal_actions = legal_actions engine state seat;
})

-- Nim has no chance outcomes; `Json` is the type of the payloads.
abbrev pub nim_types : Type 0 → GameTypes
nim_types Json = record {
  Engine = NimConfig;
  Config = NimConfig;
  State = NimState;
  Action = Given TakeObjects;
  Outcome = ⊥;
  Event = NimEvent;
  Observation = NimObservation;
  Json = Json;
}

abbrev pub nim_rules : (Json : Type 0) → RulesEngine (nim_types Json)
nim_rules Json = record {
  initial_state = initial_state;
  current_seat = λ engine state. state.current_seat;
  legal_actions = legal_actions;
  validate_action = validate_action;
  apply_action = apply_action;
  is_terminal = is_terminal;
  result = result;
  observation = observation;
  public_state_hook = none;
  is_chance_node_hook = none;
  sample_chance_hook = none;
  apply_chance_hook = none;
  acting_seats_hook = none;
  apply_joint_action_hook = none;
}
