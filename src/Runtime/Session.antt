-- ===== src/Runtime/Session.antt =====
-- src/arena/runtime/session.py: a session runs one local match with a policy for each seat. Exceptions
-- of the match and of the policies become an aborted session; a call that does not fit the lifecycle
-- raises. The messages of an abort are left out.
pub mod Lifecycle
pub mod Sound
pub mod Calls
pub mod Log
pub mod Ends
use text.Mathlib.Text
use agents_arena.Prelude.{
  ℕ, zero, suc, ◌+◌, String, Bool, true, false, not, ◌&&◌, ◌||◌, Option, none, some, List, [], ◌∷◌,
  ◌++◌, map, length, any, ◌==◌, if◌then◌else◌,
}
use agents_arena.Core.Errors.{
  Error, Result, ok, err, ◌>>=◌, ◌>>◌, raise_if, is_core_error, runtime_state_error,
  assertion_error, out_of_fuel,
}
use agents_arena.Core.Engine.{GameTypes, SeatMap, GameDefinition}
use agents_arena.Core.Simultaneous.{acting_seats, is_joint_node, get_seat, pick}
use agents_arena.Match.LocalMatch.{LocalMatch, start_match}
use agents_arena.Adapters.InProcess.{
  PayloadPolicy, first_seat, apply_payload_policy_turn, apply_payload_policy_joint_turn,
}

pub record PlayerRecord : Type 0 where
  pub player_id : String
  pub seat : ℕ
  pub label : Option String

pub data RuntimeLifecycle : Type 0 where
  created running finished aborted : RuntimeLifecycle

pub data AbortReason : Type 0 where
  adapter_error core_error dependency_error invalid_state missing_policy runtime_error : AbortReason
  cancelled user_quit user_interrupt turn_deadline_expired peer_disconnected : AbortReason
  heartbeat_timeout turn_limit_exceeded : AbortReason

pub record AbortMetadata : Type 0 where
  pub reason : AbortReason
  pub cause : Option Error

pub data RuntimeEvent : Type 0 where
  match_created : (players : List PlayerRecord) → RuntimeEvent
  match_started match_finished : RuntimeEvent
  turn_requested : (seat : ℕ) → RuntimeEvent
  turn_accepted : (seat turn_index : ℕ) → RuntimeEvent
  match_aborted : (abort : AbortMetadata) → RuntimeEvent

pub record MatchSession (T : GameTypes) : Type 0 where
  pub match_id : String
  pub config : T.Config
  pub players : List PlayerRecord
  pub policy_bindings : SeatMap (PayloadPolicy T.Json)
  pub lifecycle : RuntimeLifecycle
  pub local_match : Option (LocalMatch T)
  pub events : List RuntimeEvent
  pub abort : Option AbortMetadata

-- `lifecycle is …`.
abbrev pub is_created : RuntimeLifecycle → Bool
is_created created = true
is_created _ = false

abbrev pub is_running : RuntimeLifecycle → Bool
is_running running = true
is_running _ = false

-- FINISHED or ABORTED.
abbrev pub is_over : RuntimeLifecycle → Bool
is_over finished = true
is_over aborted = true
is_over _ = false

-- `len(xs) != len(set(xs))`.
unique_seats : List PlayerRecord → Bool
unique_seats [] = true
unique_seats (player ∷ players) =
    not (any (λ other. player.seat == other.seat) players) && unique_seats players

unique_ids : List PlayerRecord → Bool
unique_ids [] = true
unique_ids (player ∷ players) =
    not (any (λ other. Text.◌==◌ player.player_id other.player_id) players) && unique_ids players

-- `seat in policy_bindings`.
abbrev pub is_bound : {A : Type 0} → ℕ → SeatMap A → Bool
is_bound seat bindings = any (λ entry. seat == entry.0) bindings

module _ {T : GameTypes} where
  unfoldable pub finish_session : MatchSession T → MatchSession T
  finish_session s = record s { lifecycle = finished; events = s.events ++ match_finished ∷ [] }

  -- `_abort_session`; the reason and the cause.
  unfoldable pub abort_with : MatchSession T → AbortReason → Option Error → MatchSession T
  abort_with s reason cause =
      let metadata : AbortMetadata = record { reason = reason; cause = cause } in
      record s {
        lifecycle = aborted;
        abort = some metadata;
        events = s.events ++ match_aborted metadata ∷ [];
      }

  unfoldable pub record_runtime_event : MatchSession T → RuntimeEvent → MatchSession T
  record_runtime_event s event = record s { events = s.events ++ event ∷ [] }

  unfoldable pub abort_session : MatchSession T → AbortReason → Result (MatchSession T)
  abort_session s reason = do
    raise_if (is_over s.lifecycle) runtime_state_error
    ok (abort_with s reason none)

  unfoldable pub create_session :
      T.Config
      → List PlayerRecord
      → SeatMap (PayloadPolicy T.Json)
      → String
      → Result (MatchSession T)
  unfolding unique_seats unique_ids
  create_session config players policy_bindings match_id = do
    raise_if (not (unique_seats players)) runtime_state_error
    raise_if (not (unique_ids players)) runtime_state_error
    ok (record {
      match_id = match_id;
      config = config;
      players = players;
      policy_bindings = policy_bindings;
      lifecycle = created;
      local_match = none;
      events = match_created players ∷ [];
      abort = none;
    })

module _ {T : GameTypes} (definition : GameDefinition T) where
  open definition use {rules_engine as rules}

  -- The session of a match that has started.
  pub started_session : MatchSession T → LocalMatch T → MatchSession T
  started_session s m =
      let terminal = rules.is_terminal m.rules_engine m.state in
      let started = s.events ++ match_started ∷ [] in
      record s {
        lifecycle = if terminal then finished else running;
        local_match = some m;
        events = if terminal then started ++ match_finished ∷ [] else started;
      }

  unfoldable pub start_session : MatchSession T → Option ℕ → ℕ → Result (MatchSession T)
  unfolding started_session
  start_session s seed minted = do
    raise_if (not (is_created s.lifecycle)) runtime_state_error
    elim (start_match definition s.config seed minted) [
      | ok m ↦ ok (started_session s m)
      | err e ↦ ok (abort_with s (if is_core_error e then core_error else runtime_error) (some e))
    ]

  -- A running session's match.
  pub running_match : MatchSession T → Result (LocalMatch T)
  running_match s = do
    raise_if (not (is_running s.lifecycle)) runtime_state_error
    elim s.local_match [ none ↦ err runtime_state_error | some m ↦ ok m ]

  unfoldable pub request_turn : MatchSession T → Result (MatchSession T × ℕ)
  unfolding running_match
  request_turn s = do
    m ← running_match s
    joint ← is_joint_node rules m.rules_engine m.state
    raise_if joint runtime_state_error
    seats ← acting_seats rules m.rules_engine m.state
    let seat = first_seat definition m seats
    ok (record_runtime_event s (turn_requested seat), seat)

  -- What follows the policies' turn: the session with the accepted events, finished at the end.
  pub after_turn : MatchSession T → LocalMatch T → List RuntimeEvent → MatchSession T
  after_turn s next accepted =
      let session = record s { local_match = some next; events = s.events ++ accepted } in
      if rules.is_terminal next.rules_engine next.state then finish_session session else session

  -- An exception of the policies or of the match aborts the session.
  pub settle_turn : MatchSession T → Result (LocalMatch T) → List RuntimeEvent → MatchSession T
  unfolding after_turn
  settle_turn s (ok next) accepted = after_turn s next accepted
  settle_turn s (err e) accepted =
      abort_with s (if is_core_error e then core_error else adapter_error) (some e)

  unfoldable pub complete_turn : MatchSession T → ℕ → Result (MatchSession T)
  unfolding settle_turn
  complete_turn s seat = elim s.local_match [
    | none ↦ err assertion_error
    | some m ↦ elim (get_seat seat s.policy_bindings) [
      | err e ↦ ok (abort_with s missing_policy none)
      | ok policy ↦ ok (
          settle_turn s (apply_payload_policy_turn definition m policy)
            (turn_accepted seat (length m.turns + 1) ∷ []))
    ]
  ]

  -- `_step_joint`, the match being the session's.
  pub step_joint : MatchSession T → LocalMatch T → Result (MatchSession T)
  unfolding settle_turn
  step_joint s m = do
    seats ← acting_seats rules m.rules_engine m.state
    let requested = record s { events = s.events ++ map turn_requested seats }
    elim (pick seats s.policy_bindings) [
      | err e ↦ ok (abort_with requested missing_policy none)
      | ok policies ↦ ok (
          settle_turn requested (apply_payload_policy_joint_turn definition m policies)
            (map (λ seat. turn_accepted seat (length m.turns + 1)) seats))
    ]

  pub request_and_complete : MatchSession T → Result (MatchSession T)
  request_and_complete s = do (requested, seat) ← request_turn s; complete_turn requested seat

  pub take_turn : MatchSession T → LocalMatch T → Bool → Result (MatchSession T)
  unfolding step_joint request_and_complete
  take_turn s m true = step_joint s m
  take_turn s m false = request_and_complete s

  unfoldable pub step_session : MatchSession T → Result (MatchSession T)
  unfolding running_match take_turn
  step_session s = do
    m ← running_match s
    let played = is_joint_node rules m.rules_engine m.state >>= take_turn s m
    if rules.is_terminal m.rules_engine m.state then ok (finish_session s) else played

  -- The `while` loop of `run_session`, with a number of steps left.
  unfoldable pub run_steps : ℕ → MatchSession T → Result (MatchSession T)
  run_steps zero s = if is_running s.lifecycle then err out_of_fuel else ok s
  run_steps (suc left) s =
      let stepped = do next ← step_session s; run_steps left next
      in if is_running s.lifecycle then stepped else ok s

  unfoldable pub run_session : ℕ → ℕ → MatchSession T → Result (MatchSession T)
  unfolding run_steps
  run_session steps minted s =
      if is_created s.lifecycle
      then (do current ← start_session s none minted; run_steps steps current)
      else run_steps steps s
