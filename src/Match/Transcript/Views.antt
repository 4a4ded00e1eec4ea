-- ===== src/Match/Transcript/Views.antt =====
-- Transcripts for a viewer, src/arena/match/transcript.py: what a seat or the public may receive of a
-- match, and of a saved full transcript.
pub mod Redact
use agents_arena.Prelude.{ℕ, Bool, not, Option, none, some, List, [], ◌∷◌, map, if◌then◌else◌}
use agents_arena.Core.Errors.{Result, ok, err, ◌>>=◌, ◌>>◌, raise_if, attribute_error, value_error}
use agents_arena.Core.Engine.{GameTypes, Serializer, GameDefinition}
use agents_arena.Core.Events.{EventClass, EventPayload, event_payload_visible_to}
use agents_arena.Core.PublicView.{
  Viewer, check_viewer, dump_config_for_viewer, dump_chance_outcome_for_viewer,
}
use agents_arena.Match.LocalMatch.{
  TurnKind, action_turn, chance_turn, joint_turn, TurnRecord, LocalMatch, build_snapshot_for_viewer,
}
use agents_arena.Match.Transcript.Payload.{
  match_transcript_schema_version, named, TranscriptView, view_full, view_seat, view_public,
  TurnPayload, TranscriptPayload,
}
use agents_arena.Match.Transcript.Dump.{
  dump_optional, dump_rule_result, dump_joint_actions, dump_domain_events, dump_match_transcript,
}
use agents_arena.Match.Transcript.Load.{check_model, redump, is_full}
use agents_arena.Match.Transcript.Validate.{Comparison, replay_match_transcript}

-- The view, and the seat it belongs to.
unfoldable pub view_of : Bool → Viewer → TranscriptView × Option ℕ
view_of hidden none = if hidden then (view_public, none) else (view_full, none)
view_of hidden (some seat) = if hidden then (view_seat, some seat) else (view_full, none)

unfoldable pub transcript_view_for :
    {T : GameTypes} → GameDefinition T → Viewer → Result (TranscriptView × Option ℕ)
unfolding view_of
transcript_view_for definition viewer = do
  check_viewer viewer
  ok (view_of definition.has_hidden_information viewer)

unfoldable pub filter_event_payloads :
    {Json : Type 0} → List (EventPayload Json) → Viewer → List (EventPayload Json)
filter_event_payloads [] viewer = []
filter_event_payloads (event ∷ events) viewer =
    let rest = filter_event_payloads events viewer in
    if event_payload_visible_to event viewer then event ∷ rest else rest

unfoldable pub dump_outcome_for_viewer :
    {T : GameTypes} → Serializer T → TurnKind → Option T.Outcome → Viewer → Result (Option T.Json)
dump_outcome_for_viewer serializer action_turn outcome viewer = ok none
dump_outcome_for_viewer serializer joint_turn outcome viewer = ok none
dump_outcome_for_viewer serializer chance_turn none viewer = err attribute_error
dump_outcome_for_viewer serializer chance_turn (some outcome) viewer = do
  payload ← dump_chance_outcome_for_viewer serializer outcome viewer
  ok (some payload)

-- The dump of a payload that was validated.
abbrev pub redump_turn : {T : GameTypes} → TurnPayload T → TurnPayload T
redump_turn turn = record turn { events = map redump turn.events }

abbrev pub redump_transcript : {T : GameTypes} → TranscriptPayload T → TranscriptPayload T
redump_transcript payload = record payload { turns = map redump_turn payload.turns }

module _ {T : GameTypes} (class : EventClass T) (definition : GameDefinition T) where
  open definition use {serializer, rules_engine as rules}

  -- `_turn_record_for_viewer`, with `turn_payload_for_viewer`.
  unfoldable pub turn_record_for_viewer : T.Config → TurnRecord T → Viewer → Result (TurnPayload T)
  turn_record_for_viewer config turn viewer = do
    action ← dump_optional serializer.dump_action turn.action
    actions ← dump_optional (dump_joint_actions serializer) turn.actions
    events ← dump_domain_events class turn.events
    outcome ← dump_outcome_for_viewer serializer turn.kind turn.outcome viewer
    snapshot ← build_snapshot_for_viewer definition config turn.post_state viewer
    ok (record {
      seat = turn.seat;
      action = action;
      events = filter_event_payloads events viewer;
      result = dump_rule_result turn.result;
      post_snapshot = snapshot;
      kind = some turn.kind;
      outcome = outcome;
      actions = actions;
    })

  unfoldable pub turn_records_for_viewer :
      T.Config → List (TurnRecord T) → Viewer → Result (List (TurnPayload T))
  turn_records_for_viewer config [] viewer = ok []
  turn_records_for_viewer config (turn ∷ turns) viewer = do
    payload ← turn_record_for_viewer config turn viewer
    rest ← turn_records_for_viewer config turns viewer
    ok (payload ∷ rest)

  -- What is dumped for a view that is not the full one.
  unfoldable pub dump_redacted :
      LocalMatch T → Viewer → TranscriptView → Option ℕ → Result (TranscriptPayload T)
  dump_redacted m viewer view viewer_seat = do
    config ← dump_config_for_viewer serializer m.config viewer
    (engine, state) ← rules.initial_state m.rules_engine m.config
    initial ← build_snapshot_for_viewer definition m.config state viewer
    turns ← turn_records_for_viewer m.config m.turns viewer
    raise_if (not (named definition.game_id)) value_error
    ok (record {
      game_id = definition.game_id;
      schema_version = match_transcript_schema_version;
      config = config;
      initial_snapshot = initial;
      turns = turns;
      view = view;
      viewer_seat = viewer_seat;
    })

  unfoldable pub dump_match_transcript_for_viewer :
      LocalMatch T → Viewer → Result (TranscriptPayload T)
  dump_match_transcript_for_viewer m viewer = do
    (view, viewer_seat) ← transcript_view_for definition viewer
    if is_full view
        then dump_match_transcript class definition m
        else dump_redacted m viewer view viewer_seat

  unfoldable pub redact_match_transcript :
      Comparison T → TranscriptPayload T → Viewer → Result (TranscriptPayload T)
  redact_match_transcript compare payload viewer = do
    check_viewer viewer
    (loaded, replayed) ← replay_match_transcript class compare definition payload
    (view, viewer_seat) ← transcript_view_for definition viewer
    if is_full view
        then check_model payload >> ok (redump_transcript payload)
        else dump_match_transcript_for_viewer replayed viewer
