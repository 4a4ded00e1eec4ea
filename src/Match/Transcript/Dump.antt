-- ===== src/Match/Transcript/Dump.antt =====
-- Dumping a match, src/arena/match/transcript.py: dump_match_transcript and what it calls.
use agents_arena.Prelude.{ℕ, not, Option, none, some, List, [], ◌∷◌, map, sorted}
use agents_arena.Core.Errors.{Result, ok, err, ◌>>=◌, ◌>>◌, raise_if, attribute_error, value_error}
use agents_arena.Core.Engine.{GameTypes, RuleResult, win, draw, SeatMap, Serializer, GameDefinition}
use agents_arena.Core.Events.{EventClass, EventPayload, is_public, audience}
use agents_arena.Core.Nodes.{dump_chance_outcome}
use agents_arena.Core.Simultaneous.{keys, get_seat}
use agents_arena.Match.LocalMatch.{
  TurnKind, action_turn, chance_turn, joint_turn, TurnRecord, LocalMatch,
}
use agents_arena.Match.Transcript.Payload.{
  match_transcript_schema_version, named, view_full, ResultPayload, TurnPayload, TranscriptPayload,
}

-- An optional field, dumped if it is there.
abbrev pub dump_optional {ℓ κ} :
    {A : Type ℓ} {B : Type κ} → (A → Result B) → Option A → Result (Option B)
dump_optional dump none = ok none
dump_optional dump (some a) = do b ← dump a; ok (some b)

unfoldable pub dump_rule_result : Option RuleResult → Option ResultPayload
dump_rule_result none = none
dump_rule_result (some (win seat)) = some (record { result_type = "Win"; seat = some seat })
dump_rule_result (some draw) = some (record { result_type = "Draw"; seat = none })

-- The entries of a joint turn, for the seats in the order given.
unfoldable pub dump_entries :
    {T : GameTypes} → Serializer T → List ℕ → SeatMap T.Action → Result (List (Option ℕ × T.Json))
dump_entries serializer [] actions = ok []
dump_entries serializer (seat ∷ seats) actions = do
  action ← get_seat seat actions
  payload ← serializer.dump_action action
  rest ← dump_entries serializer seats actions
  ok ((some seat, payload) ∷ rest)

unfoldable pub dump_joint_actions :
    {T : GameTypes} → Serializer T → SeatMap T.Action → Result (List (Option ℕ × T.Json))
dump_joint_actions serializer actions = dump_entries serializer (sorted (keys actions)) actions

-- Only a chance turn's outcome is dumped; it has one.
unfoldable pub dump_outcome :
    {T : GameTypes} → Serializer T → TurnKind → Option T.Outcome → Result (Option T.Json)
dump_outcome serializer action_turn outcome = ok none
dump_outcome serializer joint_turn outcome = ok none
dump_outcome serializer chance_turn none = err attribute_error
dump_outcome serializer chance_turn (some outcome) = do
  payload ← dump_chance_outcome serializer outcome
  ok (some payload)

module _ {T : GameTypes} (class : EventClass T) where
  -- What an event is dumped to. A public event is dumped without the two keys.
  unfoldable pub event_payload : T.Event → EventPayload T.Json
  event_payload event = record {
    event_type = class.event_type event;
    payload = class.fields event;
    is_public = is_public class event;
    audience = audience class event;
    marked = not (is_public class event);
  }

  abbrev pub dump_events : List T.Event → List (EventPayload T.Json)
  dump_events events = map event_payload events

  -- The payload model refuses an event without a name.
  unfoldable pub dump_domain_event : T.Event → Result (EventPayload T.Json)
  unfolding event_payload
  dump_domain_event event = do
    raise_if (not (named (class.event_type event))) value_error
    ok (event_payload event)

  unfoldable pub dump_domain_events : List T.Event → Result (List (EventPayload T.Json))
  unfolding dump_domain_event
  dump_domain_events [] = ok []
  dump_domain_events (event ∷ events) = do
    payload ← dump_domain_event event
    rest ← dump_domain_events events
    ok (payload ∷ rest)

  module _ (definition : GameDefinition T) where
    open definition use {serializer}

    unfoldable pub dump_turn : TurnRecord T → Result (TurnPayload T)
    dump_turn turn = do
      action ← dump_optional serializer.dump_action turn.action
      outcome ← dump_outcome serializer turn.kind turn.outcome
      actions ← dump_optional (dump_joint_actions serializer) turn.actions
      events ← dump_domain_events turn.events
      ok (record {
        seat = turn.seat;
        action = action;
        events = events;
        result = dump_rule_result turn.result;
        post_snapshot = turn.post_snapshot;
        kind = some turn.kind;
        outcome = outcome;
        actions = actions;
      })

    unfoldable pub dump_turns : List (TurnRecord T) → Result (List (TurnPayload T))
    dump_turns [] = ok []
    dump_turns (turn ∷ turns) = do
      payload ← dump_turn turn
      rest ← dump_turns turns
      ok (payload ∷ rest)

    -- The payload model refuses a game without a name.
    unfoldable pub dump_match_transcript : LocalMatch T → Result (TranscriptPayload T)
    dump_match_transcript m = do
      config ← serializer.dump_config m.config
      turns ← dump_turns m.turns
      raise_if (not (named definition.game_id)) value_error
      ok (record {
        game_id = definition.game_id;
        schema_version = match_transcript_schema_version;
        config = config;
        initial_snapshot = m.initial_snapshot;
        turns = turns;
        view = view_full;
        viewer_seat = none;
      })
