-- ===== src/Games/LiarsDice/Views.antt =====
-- What a seat and the public see of Liar's Dice: src/arena/games/liarsdice, observation.py and the
-- views of rules.py, with the dumps of serializer.py.
pub mod Hidden
use agents_arena.Prelude.{ℕ, Bool, not, Option, none, some, List}
use agents_arena.Core.Errors.{Result, ok, ◌>>=◌, ◌>>◌, raise_if, value_error}
use agents_arena.Core.Chance.{ChanceRng}
use agents_arena.Core.Engine.{GameTypes, Given, RulesEngine}
use agents_arena.Games.LiarsDice.State.{
  LiarsDiceConfig, Bid, LiarsDiceAction, Showdown, LiarsDiceState, Roll, is_seat,
}
use agents_arena.Games.LiarsDice.Rules
use agents_arena.Games.LiarsDice.Rules.{LiarsDiceEvent, legal_actions, is_chance_node}
use agents_arena.Games.LiarsDice.Serializer.{hand_of}

pub record LiarsDiceObservation : Type 0 where
  pub seat : ℕ
  pub my_dice : List ℕ
  pub count0 : ℕ
  pub count1 : ℕ
  pub bids : List Bid
  pub current_seat : ℕ
  pub round_number : ℕ
  pub faces : ℕ
  pub last_showdown : Option Showdown
  pub legal_actions : List (Given LiarsDiceAction)

pub record LiarsDicePublicView : Type 0 where
  pub count0 : ℕ
  pub count1 : ℕ
  pub bids : List Bid
  pub current_seat : ℕ
  pub round_number : ℕ
  pub faces : ℕ
  pub last_showdown : Option Showdown
  pub roll_pending : Bool

unfoldable pub observation : LiarsDiceState → ℕ → Result LiarsDiceObservation
observation state seat = do
  raise_if (not (is_seat seat)) value_error
  ok (record {
    seat = seat;
    my_dice = hand_of state.dice seat;
    count0 = state.count0;
    count1 = state.count1;
    bids = state.bids;
    current_seat = state.current_seat;
    round_number = state.round_number;
    faces = state.faces;
    last_showdown = state.last_showdown;
    legal_actions = legal_actions state seat;
  })

unfoldable pub public_state : LiarsDiceState → LiarsDicePublicView
public_state state = record {
  count0 = state.count0;
  count1 = state.count1;
  bids = state.bids;
  current_seat = state.current_seat;
  round_number = state.round_number;
  faces = state.faces;
  last_showdown = state.last_showdown;
  roll_pending = is_chance_node state;
}

-- What a player sees, or a spectator.
pub data LiarsDiceView : Type 0 where
  seat_view : LiarsDiceObservation → LiarsDiceView
  public_view : LiarsDicePublicView → LiarsDiceView

abbrev pub liars_dice_types : Type 0 → GameTypes
liars_dice_types Json = record {
  Engine = Unit {0};
  Config = LiarsDiceConfig;
  State = LiarsDiceState;
  Action = Given LiarsDiceAction;
  Outcome = Given Roll;
  Event = LiarsDiceEvent;
  Observation = LiarsDiceView;
  Json = Json;
}

abbrev pub liars_dice_rules :
    (ℕ → ℕ → ℕ) → ℕ → (Json : Type 0) → RulesEngine (liars_dice_types Json)
liars_dice_rules block rounds Json = record {
  initial_state = Rules.initial_state;
  current_seat = λ engine state. state.current_seat;
  legal_actions = λ engine. legal_actions;
  validate_action = λ engine. Rules.validate_action;
  apply_action = λ engine. Rules.apply_action;
  is_terminal = λ engine. Rules.is_terminal;
  result = λ engine. Rules.result;
  observation = λ engine state seat. do
    seen ← observation state seat
    ok (seat_view seen);
  public_state_hook = some (λ engine state. ok (public_view (public_state state)));
  is_chance_node_hook = some (λ engine. is_chance_node);
  sample_chance_hook = some (λ engine. Rules.sample_chance block rounds);
  apply_chance_hook = some (λ engine. Rules.apply_chance);
  acting_seats_hook = none;
  apply_joint_action_hook = none;
}
