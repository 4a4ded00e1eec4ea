-- ===== src/Scenarios/Views.antt =====
-- A game of hidden information: Pig, with the scores shown only to seat 0.
use agents_arena.Prelude.{ℕ, ◌≡◌, ◌⊎◌, arith, refl, true, false, some, ◌==◌, if◌then◌else◌}
use agents_arena.Core.Errors.{ok}
use agents_arena.Core.Engine.{GameDefinition, Serializer}
use agents_arena.Core.PublicView.{validate_public_view}
use agents_arena.Core.PublicView.Hooks.{StateByHooks, OutcomeByHooks, validate_public_view-by_hooks}
use agents_arena.Games.Pig
use agents_arena.Games.Pig.{pig_types, pig_rules, PigState, DieRoll}
use agents_arena.Scenarios.Matches.{pig, pig_serializer, digest}

abbrev scored : PigState
scored = record {
  score0 = 3;
  score1 = 2;
  current_seat = 1;
  turn_total = 0;
  roll_pending = false;
  target_score = 5;
}

abbrev hiding_serializer : Serializer (pig_types ℕ)
hiding_serializer = record pig_serializer {
  dump_public_state_hook = some (λ state. ok 0);
  load_public_state_hook = some (λ payload. ok scored);
  dump_state_for_seat_hook = some (λ state seat. ok (if seat == 0 then state.score0 else 0));
  dump_chance_outcome_for_seat_hook =
      some (λ outcome seat. ok (if seat == 0 then outcome.face else 0));
  dump_public_chance_outcome_hook = some (λ outcome. ok 0);
}

abbrev hiding : GameDefinition (pig_types ℕ)
hiding = record pig {
  rules_engine = record (pig_rules digest 1 ℕ) {
    public_state_hook = some (λ engine state. Pig.observation state 0);
  };
  serializer = hiding_serializer;
  has_hidden_information = true;
}

hiding_valid : validate_public_view hiding ≡ ok tt
unfolding validate_public_view
hiding_valid = refl

abbrev three : DieRoll
three = record { face = 3 }

validate_public_view-by_hooks_example :
    StateByHooks hiding.serializer scored 1
    × ((hiding.has_chance_nodes ≡ false) ⊎ OutcomeByHooks hiding.serializer three 1)
validate_public_view-by_hooks_example =
    validate_public_view-by_hooks hiding scored three 1 (omega arith) refl hiding_valid
