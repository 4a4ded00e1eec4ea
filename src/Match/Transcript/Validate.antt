-- ===== src/Match/Transcript/Validate.antt =====
-- Validating a transcript by replay, src/arena/match/transcript.py: validate_match_transcript and the
-- comparisons that follow the replay. Python's `==` on states and on payloads is a parameter.
use agents_arena.Prelude.{
  same_string, Bool, true, false, not, ◌&&◌, Option, none, some, List, [], ◌∷◌, length, list_eq,
  ◌==◌, if◌then◌else◌,
}
use agents_arena.Core.Errors.{
  Error, Result, ok, err, ◌>>=◌, ◌>>◌, raise_if, value_error, key_error, index_error,
  attribute_error, is_core_error,
}
use agents_arena.Core.Engine.{GameTypes, RuleResult, win, draw, GameDefinition}
use agents_arena.Core.Events.{EventClass, EventPayload}
use agents_arena.Core.Nodes.{is_chance_node}
use agents_arena.Match.LocalMatch.{
  TurnKind, action_turn, chance_turn, joint_turn, SnapshotEnvelope, TurnRecord, LocalMatch,
  start_replay_match, replay_turn,
}
use agents_arena.Match.Transcript.Payload.{
  ResultPayload, TranscriptPayload, LoadedMatchTurn, LoadedMatchTranscript,
}
use agents_arena.Match.Transcript.Dump.{dump_domain_events, dump_rule_result}
use agents_arena.Match.Transcript.Load.{load_match_transcript}

-- Python's `==`.
pub record Comparison (T : GameTypes) : Type 0 where
  pub same_state : T.State → T.State → Bool
  pub same_json : T.Json → T.Json → Bool

abbrev pub same_option : {A : Type 0} → (A → A → Bool) → Option A → Option A → Bool
same_option same none none = true
same_option same (some a) (some b) = same a b
same_option same _ _ = false

abbrev pub same_list : {A : Type 0} → (A → A → Bool) → List A → List A → Bool
same_list same [] [] = true
same_list same (a ∷ rest) (b ∷ others) = same a b && same_list same rest others
same_list same _ _ = false

abbrev pub same_bool : Bool → Bool → Bool
same_bool a b = if a then b else not b

abbrev pub same_kind : TurnKind → TurnKind → Bool
same_kind action_turn action_turn = true
same_kind chance_turn chance_turn = true
same_kind joint_turn joint_turn = true
same_kind _ _ = false

abbrev pub same_result : RuleResult → RuleResult → Bool
same_result (win a) (win b) = a == b
same_result draw draw = true
same_result _ _ = false

abbrev pub same_result_payload : ResultPayload → ResultPayload → Bool
same_result_payload a b =
    same_string a.result_type b.result_type && same_option (λ x y. x == y) a.seat b.seat

module _ {T : GameTypes} (compare : Comparison T) where
  abbrev pub same_event : EventPayload T.Json → EventPayload T.Json → Bool
  same_event a b =
      same_string a.event_type b.event_type
      && compare.same_json a.payload b.payload
      && same_bool a.is_public b.is_public
      && same_option list_eq a.audience b.audience
      && same_bool a.marked b.marked

  unfoldable pub ensure_snapshot_matches :
      SnapshotEnvelope T → SnapshotEnvelope T → Result (Unit {0})
  ensure_snapshot_matches expected actual = do
    raise_if (not (same_string actual.game_id expected.game_id)) value_error
    raise_if (not (actual.schema_version == expected.schema_version)) value_error
    raise_if (not (compare.same_json actual.config expected.config)) value_error
    raise_if (not (compare.same_json actual.state expected.state)) value_error

  unfoldable pub ensure_state_matches : T.State → T.State → Result (Unit {0})
  ensure_state_matches expected actual =
      raise_if (not (compare.same_state actual expected)) value_error

  unfoldable pub ensure_event_payloads_match :
      EventClass T → List (EventPayload T.Json) → List T.Event → Result (Unit {0})
  ensure_event_payloads_match class expected events = do
    actual ← dump_domain_events class events
    raise_if (not (same_list same_event actual expected)) value_error

unfoldable pub ensure_result_matches :
    Option RuleResult → Option ResultPayload → Option RuleResult → Result (Unit {0})
ensure_result_matches expected expected_payload actual = do
  raise_if (not (same_option same_result actual expected)) value_error
  raise_if (not (same_option same_result_payload (dump_rule_result actual) expected_payload))
      value_error

-- The exceptions that `_replay_match_transcript` turns into a ValueError.
unfoldable pub reported : Error → Error
reported key_error = value_error
reported index_error = value_error
reported attribute_error = value_error
reported e = if is_core_error e then value_error else e

unfoldable pub as_value_error : {A : Type 0} → Result A → Result A
as_value_error (ok a) = ok a
as_value_error (err e) = err (reported e)

module _ {T : GameTypes} (class : EventClass T) (compare : Comparison T)
    (definition : GameDefinition T) where
  -- One round of the replay loop.
  unfoldable pub replay_loaded_turn :
      LocalMatch T → LoadedMatchTurn T → Option TurnKind → Result (LocalMatch T)
  replay_loaded_turn m turn none = err value_error
  replay_loaded_turn m turn (some kind) =
      replay_turn definition m kind turn.seat turn.action turn.outcome turn.actions

  unfoldable pub replay_loaded : LocalMatch T → List (LoadedMatchTurn T) → Result (LocalMatch T)
  replay_loaded m [] = ok m
  replay_loaded m (turn ∷ turns) = do
    m' ← replay_loaded_turn m turn turn.kind
    replay_loaded m' turns

  -- One round of the comparison of the loaded with the generated turns.
  unfoldable pub ensure_turn_matches : LoadedMatchTurn T → TurnRecord T → Result (Unit {0})
  ensure_turn_matches loaded generated = do
    raise_if (not (same_option same_kind loaded.kind (some generated.kind))) value_error
    ensure_state_matches compare loaded.post_state generated.post_state
    ensure_snapshot_matches compare loaded.post_snapshot generated.post_snapshot
    ensure_event_payloads_match compare class loaded.event_payloads generated.events
    ensure_result_matches loaded.result loaded.result_payload generated.result

  -- `zip` of the two, whose lengths have been compared.
  unfoldable pub ensure_turns_match :
      List (LoadedMatchTurn T) → List (TurnRecord T) → Result (Unit {0})
  ensure_turns_match (loaded ∷ more) (generated ∷ turns) = do
    ensure_turn_matches loaded generated
    ensure_turns_match more turns
  ensure_turns_match _ _ = ok tt

  unfoldable pub validate_loaded :
      LoadedMatchTranscript T → Result (LoadedMatchTranscript T × LocalMatch T)
  validate_loaded loaded = do
    opened ← start_replay_match definition loaded.config
    ensure_snapshot_matches compare loaded.initial_snapshot opened.initial_snapshot
    ensure_state_matches compare loaded.initial_state opened.state
    replayed ← replay_loaded opened loaded.turns
    raise_if (is_chance_node definition.rules_engine replayed.rules_engine replayed.state)
        value_error
    raise_if (not (length replayed.turns == length loaded.turns)) value_error
    ensure_turns_match loaded.turns replayed.turns
    ok (loaded, replayed)

  unfoldable pub replay_match_transcript :
      TranscriptPayload T → Result (LoadedMatchTranscript T × LocalMatch T)
  replay_match_transcript payload =
      as_value_error (do loaded ← load_match_transcript definition payload; validate_loaded loaded)

  unfoldable pub validate_match_transcript : TranscriptPayload T → Result (LoadedMatchTranscript T)
  validate_match_transcript payload = do
    (loaded, replayed) ← replay_match_transcript payload
    ok loaded
