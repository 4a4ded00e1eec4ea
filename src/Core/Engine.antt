-- ===== src/Core/Engine.antt =====
-- What a game supplies: the records of src/arena/core/rules_engine.py, results.py, serializer.py
-- and game_definition.py. Python finds the hooks of chance, simultaneous and hidden-information
-- games by `getattr`; here a hook is an optional field. A hook whose body calls another method of its
-- object, as one that returns `dump_state`, is a field that agrees with that method. A rules engine is
-- an object with state of its own (the configuration that `initial_state` stores), which every method
-- takes first.
use agents_arena.Prelude.{ℕ, String, Bool, Option, List}
use agents_arena.Core.Errors.{Result}
use agents_arena.Core.Chance.{ChanceRng}

-- The classes of one game. `Json` stands for the payloads that cross the boundary.
pub record GameTypes : Type 1 where
  pub Engine : Type 0
  pub Config : Type 0
  pub State : Type 0
  pub Action : Type 0
  pub Outcome : Type 0
  pub Event : Type 0
  pub Observation : Type 0
  pub Json : Type 0

-- An argument that the source types as `Action`: one of the game's own class, or of another class,
-- which the engines tell apart by `isinstance`.
pub data Given (A : Type 0) : Type 0 where
  given : A → Given A
  foreign : Given A

pub data RuleResult : Type 0 where
  win : ℕ → RuleResult
  draw : RuleResult

pub record TransitionResult (State Event : Type 0) : Type 0 where
  pub state : State
  pub events : List Event
  pub result : Option RuleResult

-- A dictionary keyed by seats, in insertion order.
abbrev pub SeatMap : Type 0 → Type 0
SeatMap A = List (ℕ × A)

pub record RulesEngine (T : GameTypes) : Type 0 where
  pub initial_state : T.Engine → T.Config → Result (T.Engine × T.State)
  pub current_seat : T.Engine → T.State → ℕ
  pub legal_actions : T.Engine → T.State → ℕ → List T.Action
  pub validate_action : T.Engine → T.State → ℕ → T.Action → Result (Unit {0})
  pub apply_action : T.Engine → T.State → ℕ → T.Action → Result (TransitionResult T.State T.Event)
  pub is_terminal : T.Engine → T.State → Bool
  pub result : T.Engine → T.State → Option RuleResult
  pub observation : T.Engine → T.State → ℕ → Result T.Observation
  pub public_state_hook : Option (T.Engine → T.State → Result T.Observation)
  pub is_chance_node_hook : Option (T.Engine → T.State → Bool)
  pub sample_chance_hook : Option (T.Engine → T.State → ChanceRng → Result (T.Outcome × ChanceRng))
  pub apply_chance_hook :
      Option (T.Engine → T.State → T.Outcome → Result (TransitionResult T.State T.Event))
  pub acting_seats_hook : Option (T.Engine → T.State → List ℕ)
  pub apply_joint_action_hook :
      Option (T.Engine → T.State → SeatMap T.Action → Result (TransitionResult T.State T.Event))

pub record Serializer (T : GameTypes) : Type 0 where
  pub dump_config : T.Config → Result T.Json
  pub load_config : T.Json → Result T.Config
  pub dump_state : T.State → Result T.Json
  pub load_state : T.Json → Result T.State
  pub dump_action : T.Action → Result T.Json
  pub load_action : T.Json → Result T.Action
  pub dump_observation : T.Observation → Result T.Json
  pub dump_chance_outcome_hook : Option (T.Outcome → Result T.Json)
  pub load_chance_outcome_hook : Option (T.Json → Result T.Outcome)
  pub dump_public_state_hook : Option (T.State → Result T.Json)
  pub load_public_state_hook : Option (T.Json → Result T.State)
  pub dump_state_for_seat_hook : Option (T.State → ℕ → Result T.Json)
  pub dump_config_for_seat_hook : Option (T.Config → ℕ → Result T.Json)
  pub dump_public_config_hook : Option (T.Config → Result T.Json)
  pub dump_chance_outcome_for_seat_hook : Option (T.Outcome → ℕ → Result T.Json)
  pub dump_public_chance_outcome_hook : Option (T.Outcome → Result T.Json)

pub record GameDefinition (T : GameTypes) : Type 0 where
  pub game_id : String
  pub rules_engine : RulesEngine T
  -- The engine object that the definition holds; each match works on a copy of it.
  pub engine : T.Engine
  pub serializer : Serializer T
  pub has_hidden_information : Bool
  pub has_chance_nodes : Bool
  pub has_simultaneous_moves : Bool
