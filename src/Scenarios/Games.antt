-- ===== src/Scenarios/Games.antt =====
-- Positions of Nim and of Pig.
use agents_arena.Prelude.{
  ℕ, ◌+◌, ◌*◌, ◌≤◌, ◌≡◌, ◌↔◌, refl, true, false, none, List, [], ◌∷◌, inl, arith, In, length,
  if◌then◌else◌, ◌==◌,
}
use agents_arena.Core.Errors.{ok}
use agents_arena.Core.Chance.{ChanceRng, make_rng, block_at, accept_limit, draw}
use agents_arena.Core.Engine.{Given, given, TransitionResult}
use agents_arena.Games.Nim
use agents_arena.Games.Nim.{NimConfig, NimState, NimEvent, TakeObjects}
use agents_arena.Games.Nim.Legal.{nim_legal_actions-iff_valid}
use agents_arena.Games.Nim.Moves
use agents_arena.Games.Nim.Moves.{nim_apply_action-IsValid}
use agents_arena.Games.Nim.Length.{run-bounded, run}
use agents_arena.Games.Pig
use agents_arena.Games.Pig.{
  PigState, PigMove, PigEvent, DieRoll, roll, hold, die_faces, bust_face, score_of,
}
use agents_arena.Games.Pig.Turns
use agents_arena.Games.Pig.Turns.{
  pig_legal_actions-iff_valid, pig_apply_action-IsValid, apply_action-keeps_points,
}
use agents_arena.Games.Pig.Rolls.{apply_chance-lands}

-- Two piles of two objects.
abbrev two_piles : NimConfig
two_piles = record { num_piles = 2; max_pile_size = 2 }

abbrev opening : NimState
opening = record { piles = 2 ∷ 2 ∷ []; current_seat = 0 }

abbrev take_two : Given TakeObjects
take_two = given (record { pile_index = 1; count = 2 })

opening-IsValid : Moves.IsValid opening
opening-IsValid = record { has_piles = omega arith; seat = inl refl }

take_two-valid : Nim.validate_action two_piles opening 0 take_two ≡ ok tt
unfolding Nim.validate_action Nim.is_terminal Nim.result
take_two-valid = refl

nim_legal_actions-iff_valid_example :
    In take_two (Nim.legal_actions two_piles opening 0)
    ↔ (Nim.validate_action two_piles opening 0 take_two ≡ ok tt)
nim_legal_actions-iff_valid_example = nim_legal_actions-iff_valid two_piles opening 0 take_two

nim_apply_action-IsValid_example :
    (t : TransitionResult NimState NimEvent) × (Nim.apply_action two_piles opening 0 take_two
      ≡ ok t)
    × Moves.IsValid t.state
    × (t.result ≡ Nim.result two_piles t.state)
nim_apply_action-IsValid_example =
    nim_apply_action-IsValid two_piles opening 0 take_two opening-IsValid take_two-valid

-- Three moves, the last of which takes the last object.
abbrev moves : List (ℕ × Given TakeObjects)
moves =
    (0, take_two)
    ∷ (1, given (record { pile_index = 0; count = 1 }))
    ∷ (0, given (record { pile_index = 0; count = 1 }))
    ∷ []

abbrev emptied : NimState
emptied = record { piles = 0 ∷ 0 ∷ []; current_seat = 0 }

opened : Nim.initial_state two_piles two_piles ≡ ok (two_piles, opening)
unfolding Nim.initial_state Nim.make_state
opened = refl

moved_on : run two_piles opening moves ≡ ok emptied
unfolding run Nim.apply_action Nim.validate_action Nim.is_terminal Nim.result Nim.make_state
    Nim.other_seat
moved_on = refl

run-bounded_example : length moves ≤ 2 * 2
run-bounded_example = run-bounded two_piles two_piles opening emptied moves opened moved_on

-- Seat 0 has three points of its turn, of five to reach.
abbrev turn : PigState
turn = record {
  score0 = 1;
  score1 = 2;
  current_seat = 0;
  turn_total = 3;
  roll_pending = false;
  target_score = 5;
}

turn-IsValid : Turns.IsValid turn
turn-IsValid = record {
  seat = inl refl;
  target = (omega arith, omega arith);
  one_winner = λ h. absurd (omega arith);
  rests0 = λ h. absurd (omega arith);
  rests1 = λ h. absurd (omega arith);
}

abbrev in_the_air : PigState
in_the_air = record turn { roll_pending = true }

in_the_air-IsValid : Turns.IsValid in_the_air
in_the_air-IsValid = record {
  seat = inl refl;
  target = (omega arith, omega arith);
  one_winner = λ h. absurd (omega arith);
  rests0 = λ h. absurd (omega arith);
  rests1 = λ h. absurd (omega arith);
}

hold_valid : Pig.validate_action turn 0 (given hold) ≡ ok tt
unfolding Pig.validate_action Pig.is_terminal Pig.result
hold_valid = refl

pig_legal_actions-iff_valid_example :
    In (given hold) (Pig.legal_actions turn 0) ↔ (Pig.validate_action turn 0 (given hold) ≡ ok tt)
pig_legal_actions-iff_valid_example = pig_legal_actions-iff_valid turn 0 (given hold)

pig_apply_action-IsValid_example :
    (t : TransitionResult PigState PigEvent) × (Pig.apply_action turn 0 (given hold) ≡ ok t)
    × Turns.IsValid t.state
    × (t.result ≡ Pig.result t.state)
pig_apply_action-IsValid_example =
    pig_apply_action-IsValid turn 0 (given hold) turn-IsValid hold_valid

abbrev held : TransitionResult PigState PigEvent
held = record {
  state = record turn { score0 = 4; current_seat = 1; turn_total = 0 };
  events = Pig.pig_held 0 3 4 ∷ [];
  result = none;
}

hold_applied : Pig.apply_action turn 0 (given hold) ≡ ok held
unfolding Pig.apply_action Pig.validate_action Pig.is_terminal Pig.result Pig.make_state
    Pig.with_score Pig.other_seat
hold_applied = refl

apply_action-keeps_points_example :
    (4 + 2 + 0 ≡ 1 + 2 + 3)
    × (score_of held.state (Pig.other_seat 0) ≡ score_of turn (Pig.other_seat 0))
    × (held.state.target_score ≡ turn.target_score)
apply_action-keeps_points_example =
    apply_action-keeps_points turn 0 (given hold) held turn-IsValid hold_applied

pending : Pig.is_chance_node in_the_air ≡ true
unfolding Pig.is_chance_node Pig.is_terminal Pig.result
pending = refl

apply_chance-lands_example :
    (t : TransitionResult PigState PigEvent) × (Pig.apply_chance in_the_air (record { face = 4 })
      ≡ ok t)
    × Turns.IsValid t.state
    × (Pig.is_chance_node t.state ≡ false)
    × (Pig.is_terminal t.state ≡ false)
    × (t.state.score0 ≡ 1)
    × (t.state.score1 ≡ 2)
    × (t.state.turn_total ≡ (if 4 == bust_face then 0 else 3 + 4))
    × (t.state.current_seat ≡ (if 4 == bust_face then Pig.other_seat 0 else 0))
apply_chance-lands_example =
    apply_chance-lands in_the_air 4 in_the_air-IsValid pending (omega arith) (omega arith)

abbrev die : ChanceRng
die = record { seed = 7; counter = 9 }

sampled :
    Pig.sample_chance (λ seed counter. counter) 1 in_the_air die
    ≡ ok (record { face = 4 }, record { seed = 7; counter = 10 })
unfolding Pig.sample_chance draw block_at accept_limit make_rng
sampled = refl
