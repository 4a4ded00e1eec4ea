-- ===== src/Scenarios/Joint.antt =====
-- A round of Rock-Paper-Scissors as a joint turn.
use agents_arena.Prelude.{ℕ, ◌+◌, ◌≡◌, refl, false, none, some, [], ◌∷◌, arith}
use agents_arena.Core.Errors.{ok}
use agents_arena.Core.Engine.{Given, given, SeatMap, TransitionResult}
use agents_arena.Core.Nodes.{is_chance_node}
use agents_arena.Core.Simultaneous.{acting_seats, apply_joint_action, check_seats, pick}
use agents_arena.Core.Simultaneous.Joint.{apply_joint_action-swap, apply_joint_action-recorded}
use agents_arena.Games.Rps
use agents_arena.Games.Rps.{
  RpsState, RpsEvent, Shape, rock, paper, scissors, rps_rules, rps_types, round_winner, beats,
}
use agents_arena.Games.Rps.Rounds.{IsValid, rps_apply_joint_action-IsValid}

abbrev first_round : RpsState
first_round = record {
  wins0 = 0;
  wins1 = 0;
  rounds_played = 0;
  target_wins = 2;
  max_rounds = 3;
  last_round = none;
}

first_round-IsValid : IsValid first_round
first_round-IsValid = record {
  target = (omega arith, omega arith);
  cap = (omega arith, omega arith);
  rounds = omega arith;
  won = omega arith;
  below0 = omega arith;
  below1 = omega arith;
  one_winner = λ h. absurd (omega arith);
  last = refl;
  last_won = refl;
  leader0 = λ h. absurd (omega arith);
  leader1 = λ h. absurd (omega arith);
}

-- Seat 1's throw came first.
abbrev arrived : SeatMap (Given Shape)
arrived = (1, given paper) ∷ (0, given rock) ∷ []

abbrev in_order : SeatMap (Given Shape)
in_order = (0, given rock) ∷ (1, given paper) ∷ []

both_act : acting_seats (rps_rules ℕ) tt first_round ≡ ok (0 ∷ 1 ∷ [])
unfolding acting_seats check_seats is_chance_node Rps.is_terminal Rps.acting_seats
both_act = refl

both_picked : pick (0 ∷ 1 ∷ []) arrived ≡ ok in_order
unfolding pick
both_picked = refl

apply_joint_action-swap_example :
    apply_joint_action (rps_rules ℕ) tt first_round arrived
    ≡ apply_joint_action (rps_rules ℕ) tt first_round in_order
apply_joint_action-swap_example =
    apply_joint_action-swap (rps_rules ℕ) tt first_round (given rock) (given paper)

-- Paper wins the round for seat 1.
abbrev after_first : TransitionResult RpsState RpsEvent
after_first = record {
  state = record {
    wins0 = 0;
    wins1 = 1;
    rounds_played = 1;
    target_wins = 2;
    max_rounds = 3;
    last_round = some (record { throw0 = rock; throw1 = paper; winner = some 1 });
  };
  events = Rps.round_played 1 rock paper (some 1) ∷ [];
  result = none;
}

resolved : apply_joint_action (rps_rules ℕ) tt first_round arrived ≡ ok after_first
unfolding apply_joint_action acting_seats check_seats is_chance_node Rps.is_terminal
    Rps.acting_seats Rps.apply_joint_action Rps.validate_action Rps.after_round Rps.make_round
    Rps.make_state Rps.round_winner Rps.result
resolved = refl

apply_joint_action-recorded_example :
    (a : Given Shape) × (b : Given Shape) × (in_order ≡ (0, a) ∷ (1, b) ∷ [])
    × (pick (0 ∷ 1 ∷ []) in_order ≡ ok in_order)
    × (apply_joint_action (rps_rules ℕ) tt first_round in_order ≡ ok after_first)
apply_joint_action-recorded_example =
    apply_joint_action-recorded (rps_rules ℕ) tt first_round arrived in_order (0 ∷ 1 ∷ []) resolved
      both_act both_picked

running : Rps.is_terminal first_round ≡ false
unfolding Rps.is_terminal
running = refl

rps_apply_joint_action-IsValid_example :
    (t : TransitionResult RpsState RpsEvent) × (Rps.apply_joint_action first_round in_order ≡ ok t)
    × IsValid t.state
    × (t.state.rounds_played ≡ 0 + 1)
    × (t.result ≡ Rps.result t.state)
rps_apply_joint_action-IsValid_example =
    rps_apply_joint_action-IsValid first_round rock paper first_round-IsValid running
