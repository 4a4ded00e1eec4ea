-- ===== src/Match/Transcript/Payload.antt =====
-- The payload models of src/arena/match/transcript.py, as records. The kind of a turn is a string in
-- the source; `none` is any other string than the three kinds. A key of a joint turn's actions is a
-- string too, and `none` is one that is no canonical number.
use agents_arena.Prelude.{ℕ, String, Bool, not, same_string, Option, List}
use agents_arena.Core.Engine.{GameTypes, RuleResult, SeatMap}
use agents_arena.Core.Events.{EventPayload}
use agents_arena.Match.LocalMatch.{TurnKind, SnapshotEnvelope}

-- A name that is not empty: `min_length=1`.
abbrev pub named : String → Bool
named name = not (same_string name "")

abbrev pub match_transcript_schema_version : ℕ
match_transcript_schema_version = 4

pub data TranscriptView : Type 0 where
  view_full view_seat view_public : TranscriptView

-- The payload of a result names a seat, or does not.
pub record ResultPayload : Type 0 where
  pub result_type : String
  pub seat : Option ℕ

pub record TurnPayload (T : GameTypes) : Type 0 where
  pub seat : Option ℕ
  pub action : Option T.Json
  pub events : List (EventPayload T.Json)
  pub result : Option ResultPayload
  pub post_snapshot : SnapshotEnvelope T
  pub kind : Option TurnKind
  pub outcome : Option T.Json
  pub actions : Option (List (Option ℕ × T.Json))

pub record TranscriptPayload (T : GameTypes) : Type 0 where
  pub game_id : String
  pub schema_version : ℕ
  pub config : T.Json
  pub initial_snapshot : SnapshotEnvelope T
  pub turns : List (TurnPayload T)
  pub view : TranscriptView
  pub viewer_seat : Option ℕ

pub record LoadedMatchTurn (T : GameTypes) : Type 0 where
  pub seat : Option ℕ
  pub action : Option T.Action
  pub event_payloads : List (EventPayload T.Json)
  pub result : Option RuleResult
  pub result_payload : Option ResultPayload
  pub post_state : T.State
  pub post_snapshot : SnapshotEnvelope T
  pub kind : Option TurnKind
  pub outcome : Option T.Outcome
  pub actions : Option (SeatMap T.Action)

pub record LoadedMatchTranscript (T : GameTypes) : Type 0 where
  pub game_id : String
  pub schema_version : ℕ
  pub config : T.Config
  pub initial_snapshot : SnapshotEnvelope T
  pub initial_state : T.State
  pub latest_state : T.State
  pub turns : List (LoadedMatchTurn T)
