-- ===== src/Match/LocalMatch.antt =====
-- src/arena/match/local_match.py: an immutable match, the three ways to step it, and the draining
-- of chance nodes. A match is a record, and a step returns the new one or the exception.
pub mod Extends
pub mod Replay
pub mod Settled
use agents_arena.Prelude.{
  ℕ, zero, suc, ◌+◌, String, Bool, true, false, not, Option, none, some, List, [], ◌∷◌, ◌++◌,
  if◌then◌else◌,
}
use agents_arena.Core.Errors.{
  Result, ok, err, ◌>>=◌, ◌>>◌, raise_if, wrong_player, chance_resolution_error, value_error,
}
use agents_arena.Core.Chance.{ChanceRng, make_rng}
use agents_arena.Core.Engine.{
  GameTypes, RuleResult, TransitionResult, SeatMap, RulesEngine, Serializer, GameDefinition,
}
use agents_arena.Core.Nodes.{is_chance_node, sample_chance, apply_chance}
use agents_arena.Core.Simultaneous.{acting_seats, is_joint_node, apply_joint_action, pick}
use agents_arena.Core.PublicView.{Viewer, dump_config_for_viewer, dump_state_for_viewer}

abbrev pub snapshot_schema_version : ℕ
snapshot_schema_version = 1

abbrev pub max_consecutive_chance_steps : ℕ
max_consecutive_chance_steps = 128

pub data TurnKind : Type 0 where
  action_turn chance_turn joint_turn : TurnKind

pub record SnapshotEnvelope (T : GameTypes) : Type 0 where
  pub game_id : String
  pub schema_version : ℕ
  pub config : T.Json
  pub state : T.Json

pub record TurnRecord (T : GameTypes) : Type 0 where
  pub seat : Option ℕ
  pub action : Option T.Action
  pub events : List T.Event
  pub result : Option RuleResult
  pub post_state : T.State
  pub post_snapshot : SnapshotEnvelope T
  pub kind : TurnKind
  pub outcome : Option T.Outcome
  pub actions : Option (SeatMap T.Action)

-- The definition is the same for a whole match, and is a parameter of the functions below.
pub record LocalMatch (T : GameTypes) : Type 0 where
  pub rules_engine : T.Engine
  pub config : T.Config
  pub state : T.State
  pub initial_snapshot : SnapshotEnvelope T
  pub turns : List (TurnRecord T)
  pub rng : Option ChanceRng

-- What draining returns: the state, the turns, the generator.
abbrev pub Drained : GameTypes → Type 0
Drained T = T.State × List (TurnRecord T) × Option ChanceRng

module _ {T : GameTypes} (definition : GameDefinition T) where
  open definition use {serializer, rules_engine as rules}

  unfoldable pub build_snapshot : T.Config → T.State → Result (SnapshotEnvelope T)
  build_snapshot config state = do
    config_payload ← serializer.dump_config config
    state_payload ← serializer.dump_state state
    ok (record {
      game_id = definition.game_id;
      schema_version = snapshot_schema_version;
      config = config_payload;
      state = state_payload;
    })

  unfoldable pub build_snapshot_for_viewer :
      T.Config → T.State → Viewer → Result (SnapshotEnvelope T)
  build_snapshot_for_viewer config state viewer = do
    config_payload ← dump_config_for_viewer serializer config viewer
    state_payload ← dump_state_for_viewer serializer state viewer
    ok (record {
      game_id = definition.game_id;
      schema_version = snapshot_schema_version;
      config = config_payload;
      state = state_payload;
    })

  -- The record of a turn that led to `transition`.
  unfoldable pub turn_record :
      TurnKind
      → Option ℕ
      → Option T.Action
      → Option T.Outcome
      → Option (SeatMap T.Action)
      → TransitionResult T.State T.Event
      → SnapshotEnvelope T
      → TurnRecord T
  turn_record kind seat action outcome actions transition snapshot = record {
    seat = seat;
    action = action;
    events = transition.events;
    result = transition.result;
    post_state = transition.state;
    post_snapshot = snapshot;
    kind = kind;
    outcome = outcome;
    actions = actions;
  }

  unfoldable pub resolve_one :
      T.Engine → T.Config → T.State → T.Outcome → Result (T.State × TurnRecord T)
  unfolding turn_record
  resolve_one engine config state outcome = do
    transition ← apply_chance rules engine state outcome
    snapshot ← build_snapshot config transition.state
    ok (transition.state, turn_record chance_turn none none (some outcome) none transition snapshot)

  -- The loop of `_drain_chance_nodes`, with the resolutions left before it gives up.
  unfoldable pub drain_loop :
      ℕ → T.Engine → T.Config → T.State → List (TurnRecord T) → ChanceRng → Result (Drained T)
  drain_loop zero engine config state turns rng =
      if is_chance_node rules engine state
      then err chance_resolution_error
      else ok (state, turns, some rng)
  drain_loop (suc left) engine config state turns rng =
      let resolved = do
        (outcome, rng') ← sample_chance rules engine state rng
        (state', turn) ← resolve_one engine config state outcome
        drain_loop left engine config state' (turns ++ turn ∷ []) rng'
      in if is_chance_node rules engine state then resolved else ok (state, turns, some rng)

  -- With no generator nothing is sampled.
  unfoldable pub drain_chance_nodes :
      T.Engine → T.Config → T.State → List (TurnRecord T) → Option ChanceRng → Result (Drained T)
  drain_chance_nodes engine config state turns none = ok (state, turns, none)
  drain_chance_nodes engine config state turns (some rng) =
      drain_loop max_consecutive_chance_steps engine config state turns rng

  -- The match after a transition whose turn is recorded: chance nodes are drained first.
  unfoldable pub advance : LocalMatch T → T.State → TurnRecord T → Result (LocalMatch T)
  advance m state turn = do
    (state', turns', rng') ←
        drain_chance_nodes m.rules_engine m.config state (m.turns ++ turn ∷ []) m.rng
    ok (record m { state = state'; turns = turns'; rng = rng' })

  unfoldable pub start : T.Config → Option ChanceRng → Result (LocalMatch T)
  start config rng = do
    (engine, state) ← rules.initial_state definition.engine config
    snapshot ← build_snapshot config state
    (state', turns', rng') ← drain_chance_nodes engine config state [] rng
    ok (record {
      rules_engine = engine;
      config = config;
      state = state';
      initial_snapshot = snapshot;
      turns = turns';
      rng = rng';
    })

  -- `minted` is the seed that `secrets.randbits` would give.
  unfoldable pub choose_seed : Option ℕ → ℕ → ℕ
  choose_seed none minted = minted
  choose_seed (some seed) minted = seed

  unfoldable pub start_match : T.Config → Option ℕ → ℕ → Result (LocalMatch T)
  unfolding choose_seed
  start_match config seed minted =
      if definition.has_chance_nodes
      then (do rng ← make_rng (choose_seed seed minted) 0; start config (some rng))
      else start config none

  unfoldable pub start_replay_match : T.Config → Result (LocalMatch T)
  start_replay_match config = start config none

  unfoldable pub apply_match_action : LocalMatch T → ℕ → T.Action → Result (LocalMatch T)
  unfolding turn_record
  apply_match_action m seat action = do
    raise_if (is_chance_node rules m.rules_engine m.state) chance_resolution_error
    is_joint ← is_joint_node rules m.rules_engine m.state
    raise_if is_joint wrong_player
    transition ← rules.apply_action m.rules_engine m.state seat action
    snapshot ← build_snapshot m.config transition.state
    advance m transition.state
        (turn_record action_turn (some seat) (some action) none none transition snapshot)

  unfoldable pub apply_match_joint_action : LocalMatch T → SeatMap T.Action → Result (LocalMatch T)
  unfolding turn_record
  apply_match_joint_action m actions = do
    transition ← apply_joint_action rules m.rules_engine m.state actions
    seats ← acting_seats rules m.rules_engine m.state
    recorded ← pick seats actions
    snapshot ← build_snapshot m.config transition.state
    advance m transition.state
        (turn_record joint_turn none none none (some recorded) transition snapshot)

  unfoldable pub apply_match_chance : LocalMatch T → T.Outcome → Result (LocalMatch T)
  apply_match_chance m outcome = do
    raise_if (not (is_chance_node rules m.rules_engine m.state)) chance_resolution_error
    (state, turn) ← resolve_one m.rules_engine m.config m.state outcome
    advance m state turn

  -- One turn of the replay loop of `_validate_match_transcript` (src/arena/match/transcript.py): what
  -- the turn records is applied again.
  unfoldable pub replay_turn :
      LocalMatch T
      → TurnKind
      → Option ℕ
      → Option T.Action
      → Option T.Outcome
      → Option (SeatMap T.Action)
      → Result (LocalMatch T)
  replay_turn m chance_turn seat action none actions = err value_error
  replay_turn m chance_turn seat action (some outcome) actions = apply_match_chance m outcome
  replay_turn m joint_turn seat action outcome none = err value_error
  replay_turn m joint_turn seat action outcome (some []) = err value_error
  replay_turn m joint_turn seat action outcome (some (entry ∷ entries)) =
      apply_match_joint_action m (entry ∷ entries)
  replay_turn m action_turn none action outcome actions = err value_error
  replay_turn m action_turn (some seat) none outcome actions = err value_error
  replay_turn m action_turn (some seat) (some action) outcome actions =
      apply_match_action m seat action

  unfoldable pub replay : LocalMatch T → List (TurnRecord T) → Result (LocalMatch T)
  replay m [] = ok m
  replay m (turn ∷ turns) = do
    m' ← replay_turn m turn.kind turn.seat turn.action turn.outcome turn.actions
    replay m' turns

-- A call of one of the three stepping functions.
pub data MatchCall (T : GameTypes) : Type 0 where
  act : ℕ → T.Action → MatchCall T
  act_jointly : SeatMap T.Action → MatchCall T
  resolve : T.Outcome → MatchCall T

module _ {T : GameTypes} (definition : GameDefinition T) where
  unfoldable pub step : LocalMatch T → MatchCall T → Result (LocalMatch T)
  step m (act seat action) = apply_match_action definition m seat action
  step m (act_jointly actions) = apply_match_joint_action definition m actions
  step m (resolve outcome) = apply_match_chance definition m outcome

  unfoldable pub play : LocalMatch T → List (MatchCall T) → Result (LocalMatch T)
  unfolding step
  play m [] = ok m
  play m (call ∷ calls) = do m' ← step m call; play m' calls
