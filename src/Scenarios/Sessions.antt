-- ===== src/Scenarios/Sessions.antt =====
-- A session of Pig: it is started, two turns are played, the first in its two halves, and it is
-- cancelled.
use agents_arena.Prelude.{ℕ, ◌≡◌, refl, none, some, List, [], ◌∷◌, ◌++◌, true}
use agents_arena.Core.Errors.{ok}
use agents_arena.Core.Chance.{make_rng, draw}
use agents_arena.Core.Engine.{SeatMap}
use agents_arena.Core.Nodes.{is_chance_node, sample_chance, apply_chance}
use agents_arena.Core.Simultaneous.{acting_seats, is_joint_node}
use agents_arena.Games.Pig
use agents_arena.Games.Pig.{pig_types}
use agents_arena.Match.LocalMatch.{
  build_snapshot, resolve_one, drain_loop, drain_chance_nodes, advance, start, choose_seed,
  start_match, apply_match_action,
}
use agents_arena.Adapters.InProcess.{
  PayloadPolicy, build_observation_request, load_action_response, apply_payload_policy_turn,
}
use agents_arena.Runtime.Session.{
  PlayerRecord, MatchSession, RuntimeEvent, cancelled, created, match_created, turn_requested,
  create_session, start_session, request_turn, complete_turn, step_session, abort_session,
  abort_with, record_runtime_event,
}
use agents_arena.Runtime.Session.Lifecycle.{IsSound}
use agents_arena.Runtime.Session.Calls.{
  SessionCall, start_call, step_call, request_call, complete_call, abort_call, record_call,
  session_step, run_calls, fits_lifecycle, in_order, run_calls-IsSound,
}
use agents_arena.Runtime.Session.Log.{run_calls-append}
use agents_arena.Scenarios.Matches.{pig, to_five, from_ok, from_ok-eq_ok}

-- A policy that rolls.
abbrev rolls : PayloadPolicy ℕ
rolls request = ok (record { game_id = "pig"; schema_version = 1; seat = request.seat; action = 0 })

abbrev bindings : SeatMap (PayloadPolicy ℕ)
bindings = (0, rolls) ∷ (1, rolls) ∷ []

abbrev players : List PlayerRecord
players =
    record { player_id = "ann"; seat = 0; label = none }
    ∷ record { player_id = "bob"; seat = 1; label = none }
    ∷ []

abbrev fresh : MatchSession (pig_types ℕ)
fresh = record {
  match_id = "match";
  config = to_five;
  players = players;
  policy_bindings = bindings;
  lifecycle = created;
  local_match = none;
  events = match_created players ∷ [];
  abort = none;
}

abbrev session_calls : List SessionCall
session_calls =
    start_call (some 7) 0
    ∷ request_call
    ∷ complete_call 0
    ∷ step_call
    ∷ record_call (turn_requested 0)
    ∷ abort_call cancelled
    ∷ []

abbrev stopped : MatchSession (pig_types ℕ)
stopped = from_ok fresh (run_calls pig fresh session_calls)

new_session : create_session {T = pig_types ℕ} to_five players bindings "match" ≡ ok fresh
unfolding create_session
new_session = refl

calls_made : run_calls pig fresh session_calls ≡ ok stopped
unfolding run_calls session_step start_session start_match choose_seed make_rng start
    Pig.initial_state Pig.make_state build_snapshot drain_chance_nodes drain_loop is_chance_node
    Pig.is_chance_node step_session request_turn is_joint_node acting_seats complete_turn
    apply_payload_policy_turn build_observation_request Pig.observation load_action_response
    apply_match_action Pig.is_terminal Pig.result Pig.apply_action Pig.validate_action advance
    sample_chance Pig.sample_chance draw resolve_one apply_chance Pig.apply_chance abort_session
    abort_with record_runtime_event
calls_made = from_ok-eq_ok fresh (run_calls pig fresh session_calls) refl

calls_in_order : in_order pig fresh session_calls ≡ true
unfolding in_order fits_lifecycle session_step start_session start_match choose_seed make_rng start
    Pig.initial_state Pig.make_state build_snapshot drain_chance_nodes drain_loop is_chance_node
    Pig.is_chance_node step_session request_turn is_joint_node acting_seats complete_turn
    apply_payload_policy_turn build_observation_request Pig.observation load_action_response
    apply_match_action Pig.is_terminal Pig.result Pig.apply_action Pig.validate_action advance
    sample_chance Pig.sample_chance draw resolve_one apply_chance Pig.apply_chance abort_session
    abort_with record_runtime_event
calls_in_order = refl

run_calls-IsSound_example : IsSound pig stopped
run_calls-IsSound_example =
    run_calls-IsSound pig to_five players bindings "match" fresh stopped session_calls new_session
      calls_in_order calls_made

run_calls-append_example : (more : List RuntimeEvent) × (stopped.events ≡ fresh.events ++ more)
run_calls-append_example = run_calls-append pig fresh stopped session_calls calls_made
