-- ===== src/Scenarios/Transcripts.antt =====
-- A match of Pig with its transcript: a die that shows 2, then 3, and holding the five points.
use agents_arena.Prelude.{
  ℕ, String, ◌+◌, ◌≡◌, refl, Bool, true, false, not, ◌&&◌, none, some, List, [], ◌∷◌, map, ◌==◌,
  ==-refl, arith,
}
use agents_arena.Core.Errors.{Result, ok, err, value_error}
use agents_arena.Core.Chance.{make_rng, draw}
use agents_arena.Core.Engine.{GameTypes, GameDefinition, Serializer, Given, given, foreign}
use agents_arena.Core.Events.{EventClass, is_public}
use agents_arena.Core.Nodes.{
  is_chance_node, sample_chance, apply_chance, validate_chance_support,
  rules_engine_declares_chance, dump_chance_outcome, load_chance_outcome,
}
use agents_arena.Core.PublicView.{check_viewer}
use agents_arena.Core.Simultaneous.{acting_seats, is_joint_node}
use agents_arena.Games.Pig
use agents_arena.Games.Pig.{
  pig_types, pig_rules, PigConfig, PigState, PigMove, roll, hold, DieRoll, PigEvent,
}
use agents_arena.Match.LocalMatch.{
  LocalMatch, MatchCall, act, build_snapshot, resolve_one, drain_loop, drain_chance_nodes, advance,
  start, choose_seed, start_match, apply_match_action, step, play,
}
use agents_arena.Match.LocalMatch.Extends.{silent}
use agents_arena.Match.Transcript.Payload.{TranscriptPayload, LoadedMatchTranscript}
use agents_arena.Match.Transcript.Dump.{
  dump_turns, dump_turn, dump_domain_events, dump_domain_event, dump_outcome, dump_events,
  dump_match_transcript,
}
use agents_arena.Match.Transcript.Validate.{Comparison, replay_match_transcript}
use agents_arena.Match.Transcript.Trip.{Loads, loaded_of}
use agents_arena.Match.Transcript.RoundTrip.{IsReflexive, replay-dump_match_transcript}
use agents_arena.Match.Transcript.Views.{
  dump_match_transcript_for_viewer, redact_match_transcript, filter_event_payloads,
}
use agents_arena.Match.Transcript.Views.Redact.{
  visible_events, redact-dump_match_transcript, filter_event_payloads-dump_events,
}
use agents_arena.Scenarios.Matches.{digest, to_five, from_ok, from_ok-eq_ok}

-- The payloads.
data PigJson : Type 0 where
  config_json : PigConfig → PigJson
  state_json : PigState → PigJson
  move_json : PigMove → PigJson
  roll_json : DieRoll → PigJson
  event_json : PigEvent → PigJson

abbrev Pigs : GameTypes
Pigs = pig_types PigJson

abbrev load_config : PigJson → Result PigConfig
load_config (config_json config) = ok config
load_config _ = err value_error

abbrev load_state : PigJson → Result PigState
load_state (state_json state) = ok state
load_state _ = err value_error

abbrev load_move : PigJson → Result (Given PigMove)
load_move (move_json move) = ok (given move)
load_move _ = err value_error

abbrev load_roll : PigJson → Result DieRoll
load_roll (roll_json outcome) = ok outcome
load_roll _ = err value_error

abbrev dump_move : Given PigMove → Result PigJson
dump_move (given move) = ok (move_json move)
dump_move foreign = err value_error

abbrev transcript_serializer : Serializer Pigs
transcript_serializer = record {
  dump_config = λ config. ok (config_json config);
  load_config = load_config;
  dump_state = λ state. ok (state_json state);
  load_state = load_state;
  dump_action = dump_move;
  load_action = load_move;
  dump_observation = λ observation. err value_error;
  dump_chance_outcome_hook = some (λ outcome. ok (roll_json outcome));
  load_chance_outcome_hook = some load_roll;
  dump_public_state_hook = none;
  load_public_state_hook = none;
  dump_state_for_seat_hook = none;
  dump_config_for_seat_hook = none;
  dump_public_config_hook = none;
  dump_chance_outcome_for_seat_hook = none;
  dump_public_chance_outcome_hook = none;
}

abbrev pig : GameDefinition Pigs
pig = record {
  game_id = "pig";
  rules_engine = pig_rules digest 1 PigJson;
  engine = tt;
  serializer = transcript_serializer;
  has_hidden_information = false;
  has_chance_nodes = true;
  has_simultaneous_moves = false;
}

-- Every event of Pig is public.
abbrev pig_events : EventClass Pigs
pig_events = record {
  event_type = λ event. "PigEvent";
  fields = event_json;
  visible_to = λ event viewer. true;
}

pig_loads : Loads pig_events pig
unfolding dump_chance_outcome load_chance_outcome is_public
pig_loads = record {
  config = λ c j dumped. ground arith;
  state = λ s j dumped. ground arith;
  action = moves;
  outcome = λ o j dumped. ground arith;
  game_named = refl;
  event_named = λ e. refl;
  heard = λ e private. cc;
}
  where
    moves : (a : Given PigMove) (j : PigJson) → dump_move a ≡ ok j → load_move j ≡ ok a
    moves (given move) j dumped = ground arith
    moves foreign j dumped = cc

abbrev same_flag : Bool → Bool → Bool
same_flag true b = b
same_flag false b = not b

abbrev same_pig : PigState → PigState → Bool
same_pig s t =
    s.score0 == t.score0
    && s.score1 == t.score1
    && s.current_seat == t.current_seat
    && s.turn_total == t.turn_total
    && same_flag s.roll_pending t.roll_pending
    && s.target_score == t.target_score

abbrev same_move : PigMove → PigMove → Bool
same_move roll roll = true
same_move hold hold = true
same_move _ _ = false

abbrev same_pig_event : PigEvent → PigEvent → Bool
same_pig_event (Pig.pig_roll_chosen s) (Pig.pig_roll_chosen t) = s == t
same_pig_event (Pig.pig_die_rolled s f b n) (Pig.pig_die_rolled t g c m) =
    s == t && f == g && same_flag b c && n == m
same_pig_event (Pig.pig_held s b n) (Pig.pig_held t c m) = s == t && b == c && n == m
same_pig_event (Pig.pig_match_won s) (Pig.pig_match_won t) = s == t
same_pig_event _ _ = false

abbrev same_payload : PigJson → PigJson → Bool
same_payload (config_json c) (config_json d) = c.target_score == d.target_score
same_payload (state_json s) (state_json t) = same_pig s t
same_payload (move_json m) (move_json n) = same_move m n
same_payload (roll_json r) (roll_json s) = r.face == s.face
same_payload (event_json e) (event_json f) = same_pig_event e f
same_payload _ _ = false

abbrev comparison : Comparison Pigs
comparison = record { same_state = same_pig; same_json = same_payload }

same_flag_refl : (b : Bool) → same_flag b b ≡ true
same_flag_refl true = refl
same_flag_refl false = refl

same_pig_refl : (s : PigState) → same_pig s s ≡ true
same_pig_refl s =
    rw
      (
        ==-refl s.score0,
        ==-refl s.score1,
        ==-refl s.current_seat,
        ==-refl s.turn_total,
        same_flag_refl s.roll_pending,
        ==-refl s.target_score,
      )
      refl

same_pig_event_refl : (e : PigEvent) → same_pig_event e e ≡ true
same_pig_event_refl (Pig.pig_roll_chosen s) = ==-refl s
same_pig_event_refl (Pig.pig_die_rolled s f b n) =
    rw (==-refl s, ==-refl f, same_flag_refl b, ==-refl n) refl
same_pig_event_refl (Pig.pig_held s b n) = rw (==-refl s, ==-refl b, ==-refl n) refl
same_pig_event_refl (Pig.pig_match_won s) = ==-refl s

same_payload_refl : (j : PigJson) → same_payload j j ≡ true
same_payload_refl (config_json c) = ==-refl c.target_score
same_payload_refl (state_json s) = same_pig_refl s
same_payload_refl (move_json roll) = refl
same_payload_refl (move_json hold) = refl
same_payload_refl (roll_json r) = ==-refl r.face
same_payload_refl (event_json e) = same_pig_event_refl e

comparison-IsReflexive : IsReflexive comparison
comparison-IsReflexive = record { state = same_pig_refl; json = same_payload_refl }

abbrev scoreless : PigState
scoreless = record {
  score0 = 0;
  score1 = 0;
  current_seat = 0;
  turn_total = 0;
  roll_pending = false;
  target_score = 5;
}

abbrev opened : LocalMatch Pigs
opened = record {
  rules_engine = tt;
  config = to_five;
  state = scoreless;
  initial_snapshot = record {
    game_id = "pig";
    schema_version = 1;
    config = config_json to_five;
    state = state_json scoreless;
  };
  turns = [];
  rng = some (record { seed = 7; counter = 0 });
}

abbrev calls : List (MatchCall Pigs)
calls = act 0 (given roll) ∷ act 0 (given roll) ∷ act 0 (given hold) ∷ []

abbrev finished : LocalMatch Pigs
finished = from_ok opened (play pig opened calls)

started : start_match pig to_five (some 7) 0 ≡ ok opened
unfolding start_match choose_seed make_rng start Pig.initial_state Pig.make_state build_snapshot
    drain_chance_nodes drain_loop is_chance_node Pig.is_chance_node
started = refl

played : play pig opened calls ≡ ok finished
unfolding play step apply_match_action is_chance_node Pig.is_chance_node Pig.is_terminal Pig.result
    is_joint_node acting_seats Pig.apply_action Pig.validate_action Pig.make_state build_snapshot
    advance drain_chance_nodes drain_loop sample_chance Pig.sample_chance draw resolve_one
    apply_chance Pig.apply_chance
played = from_ok-eq_ok opened (play pig opened calls) refl

supported : validate_chance_support pig ≡ ok tt
unfolding validate_chance_support rules_engine_declares_chance
supported = refl

abbrev nothing : TranscriptPayload Pigs
nothing = record {
  game_id = "";
  schema_version = 0;
  config = config_json to_five;
  initial_snapshot = opened.initial_snapshot;
  turns = [];
  view = agents_arena.Match.Transcript.Payload.view_public;
  viewer_seat = none;
}

abbrev transcript : TranscriptPayload Pigs
transcript = from_ok nothing (dump_match_transcript pig_events pig finished)

dumped : dump_match_transcript pig_events pig finished ≡ ok transcript
unfolding play step apply_match_action is_chance_node Pig.is_chance_node Pig.is_terminal Pig.result
    is_joint_node acting_seats Pig.apply_action Pig.validate_action Pig.make_state build_snapshot
    advance drain_chance_nodes drain_loop sample_chance Pig.sample_chance draw resolve_one
    apply_chance Pig.apply_chance dump_match_transcript dump_turns dump_turn dump_domain_events
    dump_domain_event dump_outcome dump_chance_outcome
dumped = from_ok-eq_ok nothing (dump_match_transcript pig_events pig finished) refl

replay-dump_match_transcript_example :
    (loaded : LoadedMatchTranscript Pigs) × (replay_match_transcript pig_events comparison pig
        transcript
      ≡ ok (loaded, silent finished))
    × (loaded.config ≡ to_five)
    × (loaded.turns ≡ map (loaded_of pig_events pig pig_loads) finished.turns)
replay-dump_match_transcript_example =
    replay-dump_match_transcript comparison comparison-IsReflexive pig_events pig pig_loads to_five
      (some 7) 0 calls opened finished transcript supported started played dumped

seat_one : check_viewer (some 1) ≡ ok tt
unfolding check_viewer
seat_one = refl

redact-dump_match_transcript_example :
    redact_match_transcript pig_events pig comparison transcript (some 1)
    ≡ dump_match_transcript_for_viewer pig_events pig finished (some 1)
redact-dump_match_transcript_example =
    redact-dump_match_transcript pig_events comparison comparison-IsReflexive pig pig_loads to_five
      (some 7) 0 calls opened finished transcript (some 1) supported started played dumped seat_one

-- A roll that only the seat that rolled is told of.
abbrev secret_rolls : EventClass Pigs
secret_rolls = record pig_events { visible_to = shown }
  where
    shown : PigEvent → agents_arena.Prelude.Option ℕ → Bool
    shown (Pig.pig_die_rolled seat face busted total) none = false
    shown (Pig.pig_die_rolled seat face busted total) (some viewer) = viewer == seat
    shown _ viewer = true

abbrev rolled_and_held : List PigEvent
rolled_and_held = Pig.pig_die_rolled 0 3 false 3 ∷ Pig.pig_held 0 3 3 ∷ []

public_for_all :
    (event : PigEvent)
    → is_public secret_rolls event ≡ true
    → secret_rolls.visible_to event (some 1) ≡ true
unfolding is_public
public_for_all (Pig.pig_roll_chosen s) h = refl
public_for_all (Pig.pig_die_rolled s f b n) h = cc
public_for_all (Pig.pig_held s b n) h = refl
public_for_all (Pig.pig_match_won s) h = refl

filter_event_payloads-dump_events_example :
    filter_event_payloads (dump_events secret_rolls rolled_and_held) (some 1)
    ≡ dump_events secret_rolls (visible_events secret_rolls (some 1) rolled_and_held)
filter_event_payloads-dump_events_example =
    filter_event_payloads-dump_events secret_rolls (some 1) rolled_and_held seat_one public_for_all
