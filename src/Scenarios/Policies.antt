-- ===== src/Scenarios/Policies.antt =====
-- Policies that play matches and sessions of Nim.
use agents_arena.Prelude.{
  ℕ, ◌+◌, ◌*◌, ◌≡◌, refl, Bool, true, false, Option, none, some, List, [], ◌∷◌, sum,
}
use agents_arena.Core.Errors.{Result, ok, err, illegal_action, value_error}
use agents_arena.Core.Engine.{GameDefinition, Serializer, SeatMap, Given}
use agents_arena.Core.Nodes.{is_chance_node}
use agents_arena.Core.Simultaneous.{acting_seats, is_joint_node}
use agents_arena.Adapters.InProcess.{PayloadPolicy}
use agents_arena.Runtime.Session.{
  MatchSession, created, match_created, is_over, create_session, run_session,
}
use agents_arena.Games.Nim
use agents_arena.Games.Nim.{NimConfig, TakeObjects, nim_types}
use agents_arena.Games.Nim.Definition.{build_nim_game_definition}
use agents_arena.Games.Nim.Policies.{nim_run_local_match-ends, nim_run_session-ends}
use agents_arena.Match.LocalMatch.{
  LocalMatch, build_snapshot, drain_chance_nodes, advance, start, start_match, apply_match_action,
}
use agents_arena.Match.Policy.{
  Policy, ask_policy, ask_policies, asked_seat, joint_turn, single_turn, turn, apply_policy_turn,
  go_on, run_local_match,
}
use agents_arena.Match.Policy.Turns.{Ended}

-- Payloads are numbers, and a payload that is loaded is refused.
abbrev pub nim_serializer : Serializer (nim_types ℕ)
nim_serializer = record {
  dump_config = λ config. ok config.num_piles;
  load_config = λ payload. err value_error;
  dump_state = λ state. ok (sum state.piles);
  load_state = λ payload. err value_error;
  dump_action = λ action. ok 0;
  load_action = λ payload. err value_error;
  dump_observation = λ observation. ok observation.seat;
  dump_chance_outcome_hook = none;
  load_chance_outcome_hook = none;
  dump_public_state_hook = none;
  load_public_state_hook = none;
  dump_state_for_seat_hook = none;
  dump_config_for_seat_hook = none;
  dump_public_config_hook = none;
  dump_chance_outcome_for_seat_hook = none;
  dump_public_chance_outcome_hook = none;
}

abbrev pub two_piles : NimConfig
two_piles = record { num_piles = 2; max_pile_size = 2 }

abbrev pub nim : GameDefinition (nim_types ℕ)
nim = build_nim_game_definition two_piles nim_serializer

abbrev first_of : List (Given TakeObjects) → Result (Given TakeObjects)
first_of [] = err illegal_action
first_of (action ∷ actions) = ok action

-- Both seats take the first legal action.
abbrev policies : SeatMap (Policy (nim_types ℕ))
policies =
    (0, λ observation. first_of observation.legal_actions)
    ∷ (1, λ observation. first_of observation.legal_actions)
    ∷ []

abbrev opened : LocalMatch (nim_types ℕ)
opened = record {
  rules_engine = two_piles;
  config = two_piles;
  state = record { piles = 2 ∷ 2 ∷ []; current_seat = 0 };
  initial_snapshot = record { game_id = "nim"; schema_version = 1; config = 2; state = 4 };
  turns = [];
  rng = none;
}

started : start_match nim two_piles none 7 ≡ ok opened
unfolding start_match start Nim.initial_state Nim.make_state build_snapshot drain_chance_nodes
started = refl

-- Whether a run has ended with a match that is over.
abbrev is_won : Option (Result (LocalMatch (nim_types ℕ))) → Bool
is_won none = false
is_won (some (err e)) = false
is_won (some (ok m)) = Nim.is_terminal m.rules_engine m.state

-- Four objects are taken one by one.
played : is_won (run_local_match nim 4 opened policies) ≡ true
unfolding run_local_match go_on apply_policy_turn turn joint_turn single_turn asked_seat ask_policy
    ask_policies acting_seats is_joint_node is_chance_node apply_match_action advance build_snapshot
    drain_chance_nodes Nim.is_terminal Nim.result Nim.observation Nim.legal_actions Nim.apply_action
    Nim.validate_action Nim.other_seat Nim.make_state
played = refl

nim_run_local_match-ends_example :
    (r : Result (LocalMatch (nim_types ℕ))) × (run_local_match nim (2 * 2 + 1) opened policies
      ≡ some r)
    × Ended nim policies opened r
nim_run_local_match-ends_example =
    nim_run_local_match-ends two_piles nim_serializer two_piles none 7 opened policies started

-- A session of Nim whose policies answer with another game's name.
abbrev bindings : SeatMap (PayloadPolicy ℕ)
bindings =
    (0, λ request. ok (record { game_id = "pig"; schema_version = 1; seat = 0; action = 0 })) ∷ []

abbrev seated : MatchSession (nim_types ℕ)
seated = record {
  match_id = "match";
  config = two_piles;
  players = [];
  policy_bindings = bindings;
  lifecycle = created;
  local_match = none;
  events = match_created [] ∷ [];
  abort = none;
}

new_session : create_session {T = nim_types ℕ} two_piles [] bindings "match" ≡ ok seated
unfolding create_session
new_session = refl

nim_run_session-ends_example :
    (s : MatchSession (nim_types ℕ)) × (run_session nim (2 * 2 + 1) 7 seated ≡ ok s)
    × (is_over s.lifecycle ≡ true)
nim_run_session-ends_example =
    nim_run_session-ends two_piles nim_serializer two_piles [] bindings "match" 7 seated new_session
