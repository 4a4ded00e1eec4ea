-- ===== src/Match/Transcript/Load.antt =====
-- Loading a transcript, src/arena/match/transcript.py: load_match_transcript with the checks of the
-- definition and of the turns' shapes. Every one of these checks raises ValueError.
use agents_arena.Prelude.{
  same_string, ℕ, Bool, true, false, not, ◌&&◌, ◌||◌, Option, none, some, List, [], ◌∷◌, map,
  sorted, ltb, leb, list_eq, length, if◌then◌else◌, String,
}
use agents_arena.Core.Errors.{Result, ok, err, ◌>>=◌, ◌>>◌, raise_if, value_error}
use agents_arena.Core.Engine.{GameTypes, RuleResult, win, draw, SeatMap, Serializer, GameDefinition}
use agents_arena.Core.Events.{EventPayload, listed}
use agents_arena.Core.Nodes.{load_chance_outcome, has_hook}
use agents_arena.Core.Simultaneous.{is_empty}
use agents_arena.Match.LocalMatch.{TurnKind, action_turn, chance_turn, joint_turn, SnapshotEnvelope}
use agents_arena.Match.Transcript.Payload.{
  named, TranscriptView, view_full, view_seat, ResultPayload, TurnPayload, TranscriptPayload,
  LoadedMatchTurn, LoadedMatchTranscript,
}
use agents_arena.Match.Transcript.Dump.{dump_optional}

-- The bounds that the payload models declare.
unfoldable pub check_snapshot : {T : GameTypes} → SnapshotEnvelope T → Bool
check_snapshot snapshot = leb 1 snapshot.schema_version

unfoldable pub check_result : Option ResultPayload → Bool
check_result none = true
check_result (some result) = named result.result_type

abbrev pub all_named : {Json : Type 0} → List (EventPayload Json) → Bool
all_named [] = true
all_named (event ∷ events) = named event.event_type && all_named events

unfoldable pub check_turns : {T : GameTypes} → List (TurnPayload T) → Bool
check_turns [] = true
check_turns (turn ∷ turns) =
    all_named turn.events
    && check_result turn.result
    && check_snapshot turn.post_snapshot
    && check_turns turns

-- `MatchTranscriptPayload.model_validate`.
unfoldable pub check_model : {T : GameTypes} → TranscriptPayload T → Result (Unit {0})
check_model payload = do
  raise_if (not (named payload.game_id)) value_error
  raise_if (not (leb 1 payload.schema_version)) value_error
  raise_if (not (check_snapshot payload.initial_snapshot)) value_error
  raise_if (not (check_turns payload.turns)) value_error

-- The turns' snapshots are of this game.
unfoldable pub turns_of_game : {T : GameTypes} → String → List (TurnPayload T) → Bool
turns_of_game game_id [] = true
turns_of_game game_id (turn ∷ turns) =
    same_string turn.post_snapshot.game_id game_id && turns_of_game game_id turns

unfoldable pub ensure_definition_matches_payload :
    {T : GameTypes} → String → TranscriptPayload T → Result (Unit {0})
ensure_definition_matches_payload game_id payload = do
  raise_if (not (same_string payload.game_id game_id)) value_error
  raise_if (not (same_string payload.initial_snapshot.game_id game_id)) value_error
  raise_if (not (turns_of_game game_id payload.turns)) value_error

-- An event's markers, for a version of the schema.
unfoldable pub event_fits : {Json : Type 0} → ℕ → EventPayload Json → Bool
event_fits version event =
    not (event.marked && ltb version 3)
    && not (event.is_public && has_hook event.audience)
    && (event.is_public || not (is_empty (listed event.audience)))

abbrev pub events_fit : {Json : Type 0} → ℕ → List (EventPayload Json) → Bool
events_fit version [] = true
events_fit version (event ∷ events) = event_fits version event && events_fit version events

-- The seats of a joint turn, if every key is a canonical number.
unfoldable pub seats_of : {Json : Type 0} → List (Option ℕ × Json) → Option (List ℕ)
seats_of [] = some []
seats_of ((none, payload) ∷ entries) = none
seats_of ((some seat, payload) ∷ entries) = elim (seats_of entries) [
  | none ↦ none
  | some seats ↦ some (seat ∷ seats)
]

-- Two or more seats, in order.
unfoldable pub keys_fit : {Json : Type 0} → List (Option ℕ × Json) → Bool
keys_fit entries = elim (seats_of entries) [
  | none ↦ false
  | some seats ↦ not (ltb (length seats) 2) && list_eq seats (sorted seats)
]

abbrev pub actions_fit : {Json : Type 0} → Option (List (Option ℕ × Json)) → Bool
actions_fit none = false
actions_fit (some entries) = keys_fit entries

-- The fields that belong to the kind of a turn.
unfoldable pub kind_fits : {T : GameTypes} → ℕ → TurnPayload T → Option TurnKind → Bool
kind_fits version turn none = false
kind_fits version turn (some chance_turn) =
    not (ltb version 2)
    && not (has_hook turn.seat || has_hook turn.action)
    && has_hook turn.outcome
    && not (has_hook turn.actions)
kind_fits version turn (some action_turn) =
    has_hook turn.seat
    && has_hook turn.action
    && not (has_hook turn.outcome)
    && not (has_hook turn.actions)
kind_fits version turn (some joint_turn) =
    not (ltb version 4)
    && not (has_hook turn.seat || has_hook turn.action || has_hook turn.outcome)
    && actions_fit turn.actions

unfoldable pub turns_fit : {T : GameTypes} → ℕ → List (TurnPayload T) → Bool
turns_fit version [] = true
turns_fit version (turn ∷ turns) =
    events_fit version turn.events && kind_fits version turn turn.kind && turns_fit version turns

abbrev pub is_full : TranscriptView → Bool
is_full view_full = true
is_full _ = false

abbrev pub is_seat_view : TranscriptView → Bool
is_seat_view view_seat = true
is_seat_view _ = false

unfoldable pub ensure_turn_shapes : {T : GameTypes} → TranscriptPayload T → Result (Unit {0})
ensure_turn_shapes payload = do
  raise_if (not (leb 1 payload.schema_version && leb payload.schema_version 4)) value_error
  raise_if (ltb payload.schema_version 3 && not (is_full payload.view)) value_error
  raise_if (is_seat_view payload.view && not (has_hook payload.viewer_seat)) value_error
  raise_if (not (is_seat_view payload.view) && has_hook payload.viewer_seat) value_error
  raise_if (not (turns_fit payload.schema_version payload.turns)) value_error

unfoldable pub load_rule_result : Option ResultPayload → Result (Option RuleResult)
load_rule_result none = ok none
load_rule_result (some payload) =
    if same_string payload.result_type "Win"
    then (elim payload.seat [ none ↦ err value_error | some seat ↦ ok (some (win seat)) ])
    else if same_string payload.result_type "Draw"
    then ok (some draw)
    else ok none

-- `int(seat)` of a key that passed the check of the shapes.
abbrev pub load_seat : Option ℕ → Result ℕ
load_seat none = err value_error
load_seat (some seat) = ok seat

unfoldable pub load_entries :
    {T : GameTypes} → Serializer T → List (Option ℕ × T.Json) → Result (SeatMap T.Action)
load_entries serializer [] = ok []
load_entries serializer ((key, payload) ∷ entries) = do
  seat ← load_seat key
  action ← serializer.load_action payload
  rest ← load_entries serializer entries
  ok ((seat, action) ∷ rest)

-- The dump of an event that was loaded: a public one has none of the two keys.
unfoldable pub redump : {Json : Type 0} → EventPayload Json → EventPayload Json
redump event =
    if event.is_public
    then record event { audience = none; marked = false }
    else record event { marked = true }

module _ {T : GameTypes} (definition : GameDefinition T) where
  open definition use {serializer}

  unfoldable pub load_turn : TurnPayload T → Result (LoadedMatchTurn T)
  load_turn turn = do
    outcome ← dump_optional (load_chance_outcome serializer) turn.outcome
    action ← dump_optional serializer.load_action turn.action
    actions ← dump_optional (load_entries serializer) turn.actions
    result ← load_rule_result turn.result
    post_state ← serializer.load_state turn.post_snapshot.state
    ok (record {
      seat = turn.seat;
      action = action;
      event_payloads = map redump turn.events;
      result = result;
      result_payload = turn.result;
      post_state = post_state;
      post_snapshot = turn.post_snapshot;
      kind = turn.kind;
      outcome = outcome;
      actions = actions;
    })

  unfoldable pub load_turns : List (TurnPayload T) → Result (List (LoadedMatchTurn T))
  load_turns [] = ok []
  load_turns (turn ∷ turns) = do
    loaded ← load_turn turn
    rest ← load_turns turns
    ok (loaded ∷ rest)

  -- `loaded_turns[-1].post_state if loaded_turns else initial_state`.
  unfoldable pub latest : T.State → List (LoadedMatchTurn T) → T.State
  latest state [] = state
  latest state (turn ∷ turns) = latest turn.post_state turns

  unfoldable pub load_match_transcript : TranscriptPayload T → Result (LoadedMatchTranscript T)
  unfolding latest
  load_match_transcript payload = do
    check_model payload
    ensure_definition_matches_payload definition.game_id payload
    ensure_turn_shapes payload
    raise_if (not (is_full payload.view)) value_error
    config ← serializer.load_config payload.config
    initial_state ← serializer.load_state payload.initial_snapshot.state
    turns ← load_turns payload.turns
    ok (record {
      game_id = payload.game_id;
      schema_version = payload.schema_version;
      config = config;
      initial_snapshot = payload.initial_snapshot;
      initial_state = initial_state;
      latest_state = latest initial_state turns;
      turns = turns;
    })
