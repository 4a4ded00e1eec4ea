-- ===== src/Adapters/InProcess.antt =====
-- src/arena/adapters/in_process.py: a policy sees a serialized observation and answers with a
-- serialized action. A policy is a function here, which may raise; one that keeps state between its
-- turns is not modelled.
use text.Mathlib.Text
use agents_arena.Prelude.{ℕ, String, not, Option, none, some, List, [], ◌∷◌, ◌==◌}
use agents_arena.Core.Errors.{Result, ok, ◌>>=◌, ◌>>◌, raise_if, value_error}
use agents_arena.Core.Engine.{GameTypes, SeatMap, GameDefinition}
use agents_arena.Core.Simultaneous.{acting_seats, get_seat}
use agents_arena.Match.LocalMatch.{LocalMatch, apply_match_action, apply_match_joint_action}

abbrev pub adapter_payload_schema_version : ℕ
adapter_payload_schema_version = 1

pub record ObservationRequestPayload (Json : Type 0) : Type 0 where
  pub game_id : String
  pub schema_version : ℕ
  pub seat : ℕ
  pub observation : Json

pub record ActionResponsePayload (Json : Type 0) : Type 0 where
  pub game_id : String
  pub schema_version : ℕ
  pub seat : ℕ
  pub action : Json

abbrev pub PayloadPolicy : Type 0 → Type 0
PayloadPolicy Json = ObservationRequestPayload Json → Result (ActionResponsePayload Json)

module _ {T : GameTypes} (definition : GameDefinition T) where
  open definition use {serializer, rules_engine as rules}

  -- The first acting seat, or the current seat where none acts.
  pub first_seat : LocalMatch T → List ℕ → ℕ
  first_seat m [] = rules.current_seat m.rules_engine m.state
  first_seat m (seat ∷ seats) = seat

  asked_seat : LocalMatch T → Option ℕ → Result ℕ
  unfolding first_seat
  asked_seat m (some seat) = ok seat
  asked_seat m none = do seats ← acting_seats rules m.rules_engine m.state; ok (first_seat m seats)

  unfoldable pub build_observation_request :
      LocalMatch T → Option ℕ → Result (ObservationRequestPayload T.Json)
  unfolding asked_seat
  build_observation_request m asked = do
    seat ← asked_seat m asked
    observation ← rules.observation m.rules_engine m.state seat
    payload ← serializer.dump_observation observation
    ok (record {
      game_id = definition.game_id;
      schema_version = adapter_payload_schema_version;
      seat = seat;
      observation = payload;
    })

  unfoldable pub load_action_response : ActionResponsePayload T.Json → Result T.Action
  load_action_response response = do
    raise_if (not (Text.◌==◌ response.game_id definition.game_id)) value_error
    raise_if (not (response.schema_version == adapter_payload_schema_version)) value_error
    serializer.load_action response.action

  unfoldable pub apply_payload_policy_turn :
      LocalMatch T → PayloadPolicy T.Json → Result (LocalMatch T)
  apply_payload_policy_turn m policy = do
    request ← build_observation_request m none
    response ← policy request
    action ← load_action_response response
    apply_match_action definition m response.seat action

  -- Each acting seat is asked from its own observation of the same state.
  unfoldable pub ask_seats :
      LocalMatch T → List ℕ → SeatMap (PayloadPolicy T.Json) → Result (SeatMap T.Action)
  ask_seats m [] policies = ok []
  ask_seats m (seat ∷ seats) policies = do
    policy ← get_seat seat policies
    request ← build_observation_request m (some seat)
    response ← policy request
    raise_if (not (response.seat == seat)) value_error
    action ← load_action_response response
    actions ← ask_seats m seats policies
    ok ((seat, action) ∷ actions)

  unfoldable pub apply_payload_policy_joint_turn :
      LocalMatch T → SeatMap (PayloadPolicy T.Json) → Result (LocalMatch T)
  apply_payload_policy_joint_turn m policies = do
    seats ← acting_seats rules m.rules_engine m.state
    actions ← ask_seats m seats policies
    apply_match_joint_action definition m actions
