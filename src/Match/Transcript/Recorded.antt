-- ===== src/Match/Transcript/Recorded.antt =====
-- The turns that a replay records, src/arena/match/transcript.py and local_match.py: their fields
-- belong to their kind, and their snapshots to their states.
use mathlib.Core.Path.{subst}
use agents_arena.Prelude.{ℕ, ◌≡◌, refl, ap, Option, none, some, List, [], ◌∷◌, ◌++◌, not}
use agents_arena.Core.Errors.{ok, >>=-eq-ok, raise_if}
use agents_arena.Core.Engine.{GameTypes, SeatMap, GameDefinition}
use agents_arena.Core.Nodes.{is_chance_node, apply_chance}
use agents_arena.Core.Simultaneous.{acting_seats, apply_joint_action, is_joint_node, pick}
use agents_arena.Core.Simultaneous.Joint.{apply_joint_action-recorded}
use agents_arena.Match.LocalMatch.{
  TurnKind, action_turn, chance_turn, joint_turn, TurnRecord, LocalMatch, SnapshotEnvelope,
  build_snapshot, snapshot_schema_version, turn_record, resolve_one, drain_chance_nodes, advance,
  start, start_replay_match, apply_match_action, apply_match_joint_action, apply_match_chance,
  replay_turn, replay,
}

module _ {T : GameTypes} (definition : GameDefinition T) where
  open definition use {serializer, rules_engine as rules}

  -- The fields of a turn, by its kind.
  pub data Shape (t : TurnRecord T) : Type 0 where
    acted :
        (seat : ℕ) (action : T.Action)
        → t.kind ≡ action_turn
        → t.seat ≡ some seat
        → t.action ≡ some action
        → t.outcome ≡ none
        → t.actions ≡ none
        → Shape t
    drew :
        (outcome : T.Outcome)
        → t.kind ≡ chance_turn
        → t.seat ≡ none
        → t.action ≡ none
        → t.outcome ≡ some outcome
        → t.actions ≡ none
        → Shape t
    joined :
        (a b : T.Action)
        → t.kind ≡ joint_turn
        → t.seat ≡ none
        → t.action ≡ none
        → t.outcome ≡ none
        → t.actions ≡ some ((0, a) ∷ (1, b) ∷ [])
        → Shape t

  -- A snapshot of a state.
  pub record IsSnapshot (state : T.State) (snapshot : SnapshotEnvelope T) : Type 0 where
    pub dumped : serializer.dump_state state ≡ ok snapshot.state
    pub game : snapshot.game_id ≡ definition.game_id
    pub version : snapshot.schema_version ≡ snapshot_schema_version

  pub record IsRecorded (t : TurnRecord T) : Type 0 where
    pub snapshot : IsSnapshot t.post_state t.post_snapshot
    pub shape : Shape t

  abbrev pub AllRecorded : List (TurnRecord T) → Type 0
  AllRecorded [] = Unit {0}
  AllRecorded (t ∷ ts) = IsRecorded t × AllRecorded ts

  AllRecorded-append :
      (ts : List (TurnRecord T)) (t : TurnRecord T)
      → AllRecorded ts
      → IsRecorded t
      → AllRecorded (ts ++ t ∷ [])
  AllRecorded-append [] t all last = (last, tt)
  AllRecorded-append (u ∷ ts) t all last = (all.0, AllRecorded-append ts t all.1 last)

  build_snapshot-IsSnapshot :
      (config : T.Config) (state : T.State) (snapshot : SnapshotEnvelope T)
      → build_snapshot definition config state ≡ ok snapshot
      → IsSnapshot state snapshot
  unfolding build_snapshot
  build_snapshot-IsSnapshot config state snapshot h =
      let (config_payload, c, more) = >>=-eq-ok (serializer.dump_config config) _ h in
      let (state_payload, s, done) = >>=-eq-ok (serializer.dump_state state) _ more in
      record { dumped = cc (s, done); game = cc done; version = cc done }

  resolve_one-IsRecorded :
      (m : LocalMatch T) (outcome : T.Outcome) (state : T.State) (t : TurnRecord T)
      → resolve_one definition m.rules_engine m.config m.state outcome ≡ ok (state, t)
      → IsRecorded t
  unfolding resolve_one
  resolve_one-IsRecorded m outcome state t h =
      let (transition, applied, more) =
        >>=-eq-ok (apply_chance rules m.rules_engine m.state outcome) _ h in
      let (snapshot, built, done) =
        >>=-eq-ok (build_snapshot definition m.config transition.state) _ more in
      let same : turn_record definition chance_turn none none (some outcome) none transition
            snapshot
          ≡ t =
        cc done in
      subst IsRecorded same (record {
        snapshot = build_snapshot-IsSnapshot m.config transition.state snapshot built;
        shape = drew outcome refl refl refl refl refl;
      })

module _ {T : GameTypes} (definition : GameDefinition T) (origin : LocalMatch T) where
  open definition use {rules_engine as rules}

  -- A match that replays: it began as `origin`, has no generator, and its turns are recorded.
  pub record Replays (m : LocalMatch T) : Type 0 where
    pub quiet : m.rng ≡ none
    pub same_config : m.config ≡ origin.config
    pub same_initial : m.initial_snapshot ≡ origin.initial_snapshot
    pub all : AllRecorded definition m.turns

  advance-Replays :
      (m m' : LocalMatch T) (state : T.State) (t : TurnRecord T)
      → Replays m
      → IsRecorded definition t
      → advance definition m state t ≡ ok m'
      → Replays m'
  unfolding advance drain_chance_nodes
  advance-Replays m m' state t r last h =
      let moved : LocalMatch T = record m {
        state = state;
        turns = m.turns ++ t ∷ [];
        rng = none;
      } in
      let same : moved ≡ m' = cc (rw r.quiet at h) in
      subst Replays same (record {
        quiet = refl;
        same_config = r.same_config;
        same_initial = r.same_initial;
        all = AllRecorded-append definition m.turns t r.all last;
      })

  chance-Replays :
      (m m' : LocalMatch T) (outcome : T.Outcome)
      → Replays m
      → apply_match_chance definition m outcome ≡ ok m'
      → Replays m'
  unfolding apply_match_chance
  chance-Replays m m' outcome r h =
      let (u, pending, more) =
        >>=-eq-ok (raise_if (not (is_chance_node rules m.rules_engine m.state)) _) _ h in
      let ((state, t), resolved, advanced) =
        >>=-eq-ok (resolve_one definition m.rules_engine m.config m.state outcome) _ more in
      advance-Replays m m' state t r (resolve_one-IsRecorded definition m outcome state t resolved)
        advanced

  action-Replays :
      (m m' : LocalMatch T) (seat : ℕ) (action : T.Action)
      → Replays m
      → apply_match_action definition m seat action ≡ ok m'
      → Replays m'
  unfolding apply_match_action
  action-Replays m m' seat action r h =
      let (u, awake, h₁) =
        >>=-eq-ok (raise_if (is_chance_node rules m.rules_engine m.state) _) _ h in
      let (is_joint, single, h₂) = >>=-eq-ok (is_joint_node rules m.rules_engine m.state) _ h₁ in
      let (v, sequential, h₃) = >>=-eq-ok (raise_if is_joint _) _ h₂ in
      let (transition, applied, h₄) =
        >>=-eq-ok (rules.apply_action m.rules_engine m.state seat action) _ h₃ in
      let (snapshot, built, advanced) =
        >>=-eq-ok (build_snapshot definition m.config transition.state) _ h₄ in
      advance-Replays m m' transition.state
        (turn_record definition action_turn (some seat) (some action) none none transition snapshot)
        r
        (record {
          snapshot = build_snapshot-IsSnapshot definition m.config transition.state snapshot built;
          shape = acted seat action refl refl refl refl refl;
        })
        advanced

  joint-Replays :
      (m m' : LocalMatch T) (actions : SeatMap T.Action)
      → Replays m
      → apply_match_joint_action definition m actions ≡ ok m'
      → Replays m'
  unfolding apply_match_joint_action
  joint-Replays m m' actions r h =
      let (transition, applied, h₁) =
        >>=-eq-ok (apply_joint_action rules m.rules_engine m.state actions) _ h in
      let (seats, acting, h₂) = >>=-eq-ok (acting_seats rules m.rules_engine m.state) _ h₁ in
      let (recorded, picked, h₃) = >>=-eq-ok (pick seats actions) _ h₂ in
      let (snapshot, built, advanced) =
        >>=-eq-ok (build_snapshot definition m.config transition.state) _ h₃ in
      let (a, b, those, again, same) =
        apply_joint_action-recorded rules m.rules_engine m.state actions recorded seats applied
          acting picked in
      advance-Replays m m' transition.state
        (turn_record definition joint_turn none none none (some recorded) transition snapshot) r
        (record {
          snapshot = build_snapshot-IsSnapshot definition m.config transition.state snapshot built;
          shape = joined a b refl refl refl refl (ap some those);
        })
        advanced

  replay_turn-Replays :
      (m m' : LocalMatch T) (kind : TurnKind) (seat : Option ℕ) (action : Option T.Action)
      (outcome : Option T.Outcome) (actions : Option (SeatMap T.Action))
      → Replays m
      → replay_turn definition m kind seat action outcome actions ≡ ok m'
      → Replays m'
  unfolding replay_turn
  replay_turn-Replays m m' chance_turn seat action none actions r h = cc
  replay_turn-Replays m m' chance_turn seat action (some outcome) actions r h =
      chance-Replays m m' outcome r h
  replay_turn-Replays m m' joint_turn seat action outcome none r h = cc
  replay_turn-Replays m m' joint_turn seat action outcome (some []) r h = cc
  replay_turn-Replays m m' joint_turn seat action outcome (some (entry ∷ entries)) r h =
      joint-Replays m m' (entry ∷ entries) r h
  replay_turn-Replays m m' action_turn none action outcome actions r h = cc
  replay_turn-Replays m m' action_turn (some seat) none outcome actions r h = cc
  replay_turn-Replays m m' action_turn (some seat) (some action) outcome actions r h =
      action-Replays m m' seat action r h

  -- However a replay goes on, its turns are recorded.
  pub replay-Replays :
      (m m' : LocalMatch T) (turns : List (TurnRecord T))
      → Replays m
      → replay definition m turns ≡ ok m'
      → Replays m'
  unfolding replay
  replay-Replays m m' [] r h = subst Replays (cc) r
  replay-Replays m m' (t ∷ turns) r h =
      let (m₁, first, rest) =
        >>=-eq-ok (replay_turn definition m t.kind t.seat t.action t.outcome t.actions)
          (λ m₁. replay definition m₁ turns) h in
      replay-Replays m₁ m' turns
        (replay_turn-Replays m m₁ t.kind t.seat t.action t.outcome t.actions r first) rest

module _ {T : GameTypes} (definition : GameDefinition T) where
  open definition use {rules_engine as rules}

  -- What a match that was started without a generator begins with.
  pub start_replay_match-Replays :
      (config : T.Config) (m : LocalMatch T)
      → start_replay_match definition config ≡ ok m
      → Replays definition m m
        × (m.config ≡ config)
        × IsSnapshot definition m.state m.initial_snapshot
  unfolding start_replay_match start drain_chance_nodes
  start_replay_match-Replays config m h =
      let ((engine, state), initial, h₁) =
        >>=-eq-ok (rules.initial_state definition.engine config) _ h in
      let (snapshot, built, done) = >>=-eq-ok (build_snapshot definition config state) _ h₁ in
      let opened : LocalMatch T = record {
        rules_engine = engine;
        config = config;
        state = state;
        initial_snapshot = snapshot;
        turns = [];
        rng = none;
      } in
      let same : opened ≡ m = cc done in
      subst
        (λ m.
          Replays definition m m
          × (m.config ≡ config)
          × IsSnapshot definition m.state m.initial_snapshot)
        same
        (
          record { quiet = refl; same_config = refl; same_initial = refl; all = tt },
          refl,
          build_snapshot-IsSnapshot definition config state snapshot built,
        )
