-- ===== src/Match/Transcript/RoundTrip.antt =====
-- A played match through its transcript, src/arena/match/transcript.py: dumping it, and validating
-- the dump by replay.
use mathlib.Core.Path.{subst}
use agents_arena.Prelude.{
  not, ℕ, suc, ◌≡◌, refl, sym, ap, ◌∙◌, inl, inr, Bool, Bool-cases, true, false, Option, none, some,
  List, [], ◌∷◌, map, arith, same_string_refl, length, list_eq, list_eq_refl, ==-refl,
}
use agents_arena.Core.Errors.{raise_if, value_error, ok, >>=-eq-ok}
use agents_arena.Core.Engine.{GameTypes, RuleResult, win, draw, GameDefinition}
use agents_arena.Core.Events.{EventClass, EventPayload}
use agents_arena.Core.Nodes.{is_chance_node, validate_chance_support}
use agents_arena.Match.LocalMatch.{
  TurnKind, action_turn, chance_turn, joint_turn, SnapshotEnvelope, TurnRecord, LocalMatch,
  MatchCall, start_match, play, start_replay_match, replay, replay_turn,
}
use agents_arena.Match.LocalMatch.Extends.{silent}
use agents_arena.Match.LocalMatch.Replay.{replay-play}
use agents_arena.Match.LocalMatch.Settled.{start_match-IsSettled}
use agents_arena.Match.Transcript.Payload.{
  named, match_transcript_schema_version, view_full, TranscriptPayload, LoadedMatchTranscript,
}
use agents_arena.Match.Transcript.Dump.{
  dump_events, dump_rule_result, dump_turns, dump_match_transcript,
}
use agents_arena.Match.Transcript.Load.{
  check_model, check_snapshot, ensure_definition_matches_payload, ensure_turn_shapes,
  load_match_transcript, latest,
}
use agents_arena.Match.Transcript.Validate.{
  Comparison, same_option, same_list, same_bool, same_kind, same_event, ensure_snapshot_matches,
  ensure_state_matches, ensure_event_payloads_match, ensure_result_matches, as_value_error,
  replay_loaded_turn, replay_loaded, ensure_turn_matches, ensure_turns_match, validate_loaded,
  replay_match_transcript,
}
use agents_arena.Match.Transcript.Recorded.{
  IsSnapshot, AllRecorded, replay-Replays, start_replay_match-Replays,
}
use agents_arena.Match.Transcript.Trip.{
  Loads, loaded_of, dump_turns-AllReturn, dump_domain_events-all,
}

-- Python's `==` holds of a value and itself.
pub record IsReflexive {T : GameTypes} (compare : Comparison T) : Type 0 where
  pub state : (s : T.State) → compare.same_state s s ≡ true
  pub json : (j : T.Json) → compare.same_json j j ≡ true

same_bool_refl : (b : Bool) → same_bool b b ≡ true
same_bool_refl true = refl
same_bool_refl false = refl

same_kind_refl : (k : TurnKind) → same_kind k k ≡ true
same_kind_refl action_turn = refl
same_kind_refl chance_turn = refl
same_kind_refl joint_turn = refl

same_seats_refl : (o : Option (List ℕ)) → same_option list_eq o o ≡ true
same_seats_refl none = refl
same_seats_refl (some seats) = list_eq_refl seats

ensure_result_matches_refl :
    (r : Option RuleResult) → ensure_result_matches r (dump_rule_result r) r ≡ ok tt
unfolding ensure_result_matches dump_rule_result
ensure_result_matches_refl none = refl
ensure_result_matches_refl (some (win seat)) = rw (==-refl seat) refl
ensure_result_matches_refl (some draw) = refl

module _ {T : GameTypes} (compare : Comparison T) (reflexive : IsReflexive compare) where
  ensure_snapshot_matches_refl :
      (s : SnapshotEnvelope T) → ensure_snapshot_matches compare s s ≡ ok tt
  unfolding ensure_snapshot_matches
  ensure_snapshot_matches_refl s =
      rw
        (
          same_string_refl s.game_id,
          ==-refl s.schema_version,
          reflexive.json s.config,
          reflexive.json s.state,
        )
        refl

  same_event_refl : (e : EventPayload T.Json) → same_event compare e e ≡ true
  same_event_refl e =
      rw
        (
          same_string_refl e.event_type,
          reflexive.json e.payload,
          same_bool_refl e.is_public,
          same_seats_refl e.audience,
          same_bool_refl e.marked,
        )
        refl

  same_events_refl : (es : List (EventPayload T.Json)) → same_list (same_event compare) es es ≡ true
  same_events_refl [] = refl
  same_events_refl (e ∷ es) = rw (same_event_refl e, same_events_refl es) refl

  module _ (class : EventClass T) (definition : GameDefinition T)
      (loads : Loads class definition) where
    open definition use {serializer, rules_engine as rules}

    -- A turn matches what it is loaded to.
    ensure_turn_matches-loaded_of :
        (t : TurnRecord T)
        → ensure_turn_matches class compare definition (loaded_of class definition loads t) t
          ≡ ok tt
    unfolding ensure_turn_matches ensure_state_matches ensure_event_payloads_match
    ensure_turn_matches-loaded_of t =
        rw
          (
            same_kind_refl t.kind,
            reflexive.state t.post_state,
            ensure_snapshot_matches_refl t.post_snapshot,
            dump_domain_events-all class definition loads t.events,
            same_events_refl (dump_events class t.events),
            ensure_result_matches_refl t.result,
          )
          refl

    ensure_turns_match-loaded_of :
        (ts : List (TurnRecord T))
        → ensure_turns_match class compare definition (map (loaded_of class definition loads) ts) ts
          ≡ ok tt
    unfolding ensure_turns_match
    ensure_turns_match-loaded_of [] = refl
    ensure_turns_match-loaded_of (t ∷ ts) =
        rw (ensure_turn_matches-loaded_of t, ensure_turns_match-loaded_of ts) refl

    length-loaded_of :
        (ts : List (TurnRecord T)) → length (map (loaded_of class definition loads) ts) ≡ length ts
    length-loaded_of [] = refl
    length-loaded_of (t ∷ ts) = ap suc (length-loaded_of ts)

    -- Loaded turns replay as the turns they came from.
    replay_loaded-loaded_of :
        (m m' : LocalMatch T) (ts : List (TurnRecord T))
        → replay definition m ts ≡ ok m'
        → replay_loaded class compare definition m (map (loaded_of class definition loads) ts)
          ≡ ok m'
    unfolding replay_loaded replay_loaded_turn replay
    replay_loaded-loaded_of m m' [] h = h
    replay_loaded-loaded_of m m' (t ∷ ts) h =
        let (m₁, first, rest) =
          >>=-eq-ok (replay_turn definition m t.kind t.seat t.action t.outcome t.actions)
            (λ m₁. replay definition m₁ ts) h in
        rw first (replay_loaded-loaded_of m₁ m' ts rest)

    -- A match that was started does not end at a pending chance node.
    awake :
        (config : T.Config) (seed : Option ℕ) (minted : ℕ) (calls : List (MatchCall T))
        (m₀ m : LocalMatch T)
        → validate_chance_support definition ≡ ok tt
        → start_match definition config seed minted ≡ ok m₀
        → play definition m₀ calls ≡ ok m
        → is_chance_node rules m.rules_engine m.state ≡ false
    awake config seed minted calls m₀ m supported started played =
        elim (Bool-cases definition.has_chance_nodes) [
          | inl chance ↦
              start_match-IsSettled definition config seed minted calls m₀ m chance started played
          | inr without ↦ unfold validate_chance_support is_chance_node in ground arith
        ]

    -- The transcript of a match that began in the state `s`, as it is loaded.
    abbrev pub loaded_match : LocalMatch T → T.State → LoadedMatchTranscript T
    loaded_match m s = record {
      game_id = definition.game_id;
      schema_version = match_transcript_schema_version;
      config = m.config;
      initial_snapshot = m.initial_snapshot;
      initial_state = s;
      latest_state = latest definition s (map (loaded_of class definition loads) m.turns);
      turns = map (loaded_of class definition loads) m.turns;
    }

    load-dump_match_transcript :
        (m : LocalMatch T) (s : T.State) (payload : TranscriptPayload T)
        → AllRecorded definition m.turns
        → IsSnapshot definition s m.initial_snapshot
        → dump_match_transcript class definition m ≡ ok payload
        → load_match_transcript definition payload ≡ ok (loaded_match m s)
    unfolding dump_match_transcript load_match_transcript check_model check_snapshot
        ensure_definition_matches_payload ensure_turn_shapes
    load-dump_match_transcript m s payload recorded snap h =
        let (c, config_dumped, more) = >>=-eq-ok (serializer.dump_config m.config) _ h in
        let (ps, turns_dumped, built) = >>=-eq-ok (dump_turns class definition m.turns) _ more in
        let (u, is_named, done) =
          >>=-eq-ok (raise_if (not (named definition.game_id)) value_error) _ built in
        let all = dump_turns-AllReturn class definition loads m.turns ps recorded turns_dumped in
        let dumped : TranscriptPayload T = record {
          game_id = definition.game_id;
          schema_version = match_transcript_schema_version;
          config = c;
          initial_snapshot = m.initial_snapshot;
          turns = ps;
          view = view_full;
          viewer_seat = none;
        } in
        let same : dumped ≡ payload = cc done in
        subst (λ p. load_match_transcript definition p ≡ ok (loaded_match m s)) same
          (rw
            (
              loads.game_named,
              snap.version,
              all.checked,
              snap.game,
              same_string_refl definition.game_id,
              all.of_game,
              all.fit,
              loads.config m.config c config_dumped,
              loads.state s m.initial_snapshot.state snap.dumped,
              all.loaded,
            )
            refl)

    validate_loaded-loaded_match :
        (r m : LocalMatch T)
        → start_replay_match definition m.config ≡ ok r
        → r.initial_snapshot ≡ m.initial_snapshot
        → replay definition r m.turns ≡ ok m
        → is_chance_node rules m.rules_engine m.state ≡ false
        → validate_loaded class compare definition (loaded_match m r.state)
          ≡ ok (loaded_match m r.state, m)
    unfolding validate_loaded ensure_state_matches
    validate_loaded-loaded_match r m opened initial replays rests =
        let same : ensure_snapshot_matches compare m.initial_snapshot r.initial_snapshot ≡ ok tt =
          subst (λ s. ensure_snapshot_matches compare m.initial_snapshot s ≡ ok tt) (sym initial)
            (ensure_snapshot_matches_refl m.initial_snapshot) in
        rw
          (
            opened,
            same,
            reflexive.state r.state,
            replay_loaded-loaded_of r m m.turns replays,
            rests,
            length-loaded_of m.turns,
            ==-refl (length m.turns),
            ensure_turns_match-loaded_of m.turns,
          )
          refl

    -- Whatever is played on a started match, a dump of its transcript passes the validation: it loads, it
    -- replays to the same match, without its generator, and what is loaded has the configuration and the
    -- turns of the match. The definition passes the check of its chance hooks, its serializer loads what
    -- it dumps, its names are not empty, a private event has an audience, and `==` is reflexive.
    pub replay-dump_match_transcript :
        (config : T.Config) (seed : Option ℕ) (minted : ℕ) (calls : List (MatchCall T))
        (m₀ m : LocalMatch T) (payload : TranscriptPayload T)
        → validate_chance_support definition ≡ ok tt
        → start_match definition config seed minted ≡ ok m₀
        → play definition m₀ calls ≡ ok m
        → dump_match_transcript class definition m ≡ ok payload
        → (loaded : LoadedMatchTranscript T) × (replay_match_transcript class compare definition
              payload
            ≡ ok (loaded, silent m))
          × (loaded.config ≡ config)
          × (loaded.turns ≡ map (loaded_of class definition loads) m.turns)
    unfolding replay_match_transcript as_value_error dump_match_transcript
    replay-dump_match_transcript config seed minted calls m₀ m payload supported started played h =
        let (r, opened, replays) =
          replay-play definition config seed minted calls m₀ m started played in
        let (begun, kept, snap) = start_replay_match-Replays definition config r opened in
        let whole = replay-Replays definition r r (silent m) m.turns begun replays in
        let rests = awake config seed minted calls m₀ m supported started played in
        let same : m.config ≡ config = whole.same_config ∙ kept in
        let loaded =
          load-dump_match_transcript (silent m) r.state payload whole.all
            (subst (IsSnapshot definition r.state) (sym whole.same_initial) snap) h in
        let valid =
          validate_loaded-loaded_match r (silent m)
            (ap (start_replay_match definition) same ∙ opened) (sym whole.same_initial) replays
            rests in
        (loaded_match (silent m) r.state, rw (loaded, valid) refl, same, refl)
