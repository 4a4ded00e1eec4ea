-- ===== src/Scenarios/Matches.antt =====
-- A match of Pig with a die that shows 2, then 3.
use agents_arena.Prelude.{ℕ, ◌+◌, ◌≡◌, refl, Bool, true, false, none, some, List, [], ◌∷◌}
use agents_arena.Core.Errors.{Result, ok, err, ◌>>=◌}
use agents_arena.Core.Chance.{make_rng, draw}
use agents_arena.Core.Engine.{GameDefinition, Serializer, given}
use agents_arena.Core.Nodes.{is_chance_node, sample_chance, apply_chance}
use agents_arena.Core.Simultaneous.{acting_seats, is_joint_node}
use agents_arena.Games.Pig
use agents_arena.Games.Pig.{pig_types, pig_rules, PigConfig, PigMove, roll, hold, DieRoll}
use agents_arena.Match.LocalMatch.{
  LocalMatch, MatchCall, act, build_snapshot, resolve_one, drain_loop, drain_chance_nodes, advance,
  start, choose_seed, start_match, apply_match_action, step, play, start_replay_match, replay,
}
use agents_arena.Match.LocalMatch.Replay.{replay-play}
use agents_arena.Match.LocalMatch.Extends.{silent}
use agents_arena.Match.LocalMatch.Settled.{start_match-IsSettled}

-- Payloads are numbers, and only the outcomes' hooks are there.
abbrev pub pig_serializer : Serializer (pig_types ℕ)
pig_serializer = record {
  dump_config = λ config. ok config.target_score;
  load_config = λ payload. ok (record { target_score = payload });
  dump_state = λ state. ok (state.score0 + state.score1);
  load_state = λ payload. err agents_arena.Core.Errors.value_error;
  dump_action = λ action. ok 0;
  load_action = λ payload. ok (given roll);
  dump_observation = λ observation. ok observation.seat;
  dump_chance_outcome_hook = some (λ outcome. ok outcome.face);
  load_chance_outcome_hook = some (λ payload. ok (record { face = payload }));
  dump_public_state_hook = none;
  load_public_state_hook = none;
  dump_state_for_seat_hook = none;
  dump_config_for_seat_hook = none;
  dump_public_config_hook = none;
  dump_chance_outcome_for_seat_hook = none;
  dump_public_chance_outcome_hook = none;
}

-- The digest of a counter is its successor.
abbrev pub digest : ℕ → ℕ → ℕ
digest seed counter = counter + 1

abbrev pub pig : GameDefinition (pig_types ℕ)
pig = record {
  game_id = "pig";
  rules_engine = pig_rules digest 1 ℕ;
  engine = tt;
  serializer = pig_serializer;
  has_hidden_information = false;
  has_chance_nodes = true;
  has_simultaneous_moves = false;
}

abbrev pub to_five : PigConfig
to_five = record { target_score = 5 }

-- The match before its first turn.
abbrev opened : LocalMatch (pig_types ℕ)
opened = record {
  rules_engine = tt;
  config = to_five;
  state = record {
    score0 = 0;
    score1 = 0;
    current_seat = 0;
    turn_total = 0;
    roll_pending = false;
    target_score = 5;
  };
  initial_snapshot = record { game_id = "pig"; schema_version = 1; config = 5; state = 0 };
  turns = [];
  rng = some (record { seed = 7; counter = 0 });
}

-- Two rolls, which show 2 and 3, and holding the five points.
abbrev calls : List (MatchCall (pig_types ℕ))
calls = act 0 (given roll) ∷ act 0 (given roll) ∷ act 0 (given hold) ∷ []

abbrev pub from_ok {ℓ} : {A : Type ℓ} → A → Result A → A
from_ok default (ok a) = a
from_ok default (err e) = default

abbrev pub is_ok {ℓ} : {A : Type ℓ} → Result A → Bool
is_ok (ok a) = true
is_ok (err e) = false

pub from_ok-eq_ok {ℓ} :
    {A : Type ℓ} (default : A) (r : Result A) → is_ok r ≡ true → r ≡ ok (from_ok default r)
from_ok-eq_ok default (ok a) h = refl
from_ok-eq_ok default (err e) h = cc

abbrev finished : LocalMatch (pig_types ℕ)
finished = from_ok opened (play pig opened calls)

started : start_match pig to_five (some 7) 0 ≡ ok opened
unfolding start_match choose_seed make_rng start Pig.initial_state Pig.make_state build_snapshot
    drain_chance_nodes drain_loop is_chance_node Pig.is_chance_node
started = refl

played : play pig opened calls ≡ ok finished
unfolding play step apply_match_action is_chance_node Pig.is_chance_node Pig.is_terminal Pig.result
    is_joint_node acting_seats Pig.apply_action Pig.validate_action Pig.make_state build_snapshot
    advance drain_chance_nodes drain_loop sample_chance Pig.sample_chance draw resolve_one
    apply_chance Pig.apply_chance
played = from_ok-eq_ok opened (play pig opened calls) refl

replay-play_example :
    (r : LocalMatch (pig_types ℕ)) × (start_replay_match pig to_five ≡ ok r)
    × (replay pig r finished.turns ≡ ok (silent finished))
replay-play_example = replay-play pig to_five (some 7) 0 calls opened finished started played

start_match-IsSettled_example :
    is_chance_node (pig_rules digest 1 ℕ) finished.rules_engine finished.state ≡ false
start_match-IsSettled_example =
    start_match-IsSettled pig to_five (some 7) 0 calls opened finished refl started played
