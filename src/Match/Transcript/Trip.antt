-- ===== src/Match/Transcript/Trip.antt =====
-- A turn through its payload and back, src/arena/match/transcript.py: dumping, the checks of the
-- shapes, and loading.
use agents_arena.Prelude.{
  ℕ, ◌≡◌, refl, inl, inr, Bool-cases, true, false, Option, none, some, List, [], ◌∷◌, map,
  same_string, same_string_refl,
}
use agents_arena.Core.Errors.{Result, ok, >>=-eq-ok}
use agents_arena.Core.Engine.{GameTypes, RuleResult, win, draw, GameDefinition}
use agents_arena.Core.Events.{EventClass, is_public, audience, listed}
use agents_arena.Core.Nodes.{dump_chance_outcome, load_chance_outcome}
use agents_arena.Core.Simultaneous.{is_empty}
use agents_arena.Match.LocalMatch.{TurnRecord}
use agents_arena.Match.Transcript.Payload.{TurnPayload, LoadedMatchTurn}
use agents_arena.Match.Transcript.Dump.{
  dump_optional, dump_rule_result, dump_joint_actions, dump_entries, dump_outcome, event_payload,
  dump_domain_event, dump_domain_events, dump_events, dump_turn, dump_turns,
}
use agents_arena.Match.Transcript.Load.{
  check_snapshot, check_result, all_named, check_turns, turns_of_game, event_fits, events_fit,
  seats_of, keys_fit, kind_fits, turns_fit, load_rule_result, load_entries, redump, load_turn,
  load_turns,
}
use agents_arena.Match.Transcript.Recorded.{Shape, acted, drew, joined, AllRecorded}

-- What the transcript relies on of a game: its serializer loads what it dumped, its names are not
-- empty, and a private event is for somebody.
pub record Loads {T : GameTypes} (class : EventClass T) (definition : GameDefinition T)
    : Type 0 where
  pub config :
      (c : T.Config) (j : T.Json)
      → definition.serializer.dump_config c ≡ ok j
      → definition.serializer.load_config j ≡ ok c
  pub state :
      (s : T.State) (j : T.Json)
      → definition.serializer.dump_state s ≡ ok j
      → definition.serializer.load_state j ≡ ok s
  pub action :
      (a : T.Action) (j : T.Json)
      → definition.serializer.dump_action a ≡ ok j
      → definition.serializer.load_action j ≡ ok a
  pub outcome :
      (o : T.Outcome) (j : T.Json)
      → dump_chance_outcome definition.serializer o ≡ ok j
      → load_chance_outcome definition.serializer j ≡ ok o
  pub game_named : same_string definition.game_id "" ≡ false
  pub event_named : (e : T.Event) → same_string (class.event_type e) "" ≡ false
  pub heard :
      (e : T.Event) → is_public class e ≡ false → is_empty (listed (audience class e)) ≡ false

module _ {A B : Type 0} (dump : A → Result B) where
  dump_optional-none :
      (o : Option A) (r : Option B) → o ≡ none → dump_optional dump o ≡ ok r → r ≡ none
  dump_optional-none none r e h = cc
  dump_optional-none (some a) r e h = cc

  dump_optional-some :
      (a : A) (o : Option A) (r : Option B)
      → o ≡ some a
      → dump_optional dump o ≡ ok r
      → (b : B) × (dump a ≡ ok b) × (r ≡ some b)
  dump_optional-some a none r e h = cc
  dump_optional-some a (some x) r e h =
      let (b, dumped, same) = >>=-eq-ok (dump x) _ h in
      let here : x ≡ a = cc in (b, rw (← here) dumped, cc)

load_rule_result-dump_rule_result :
    (r : Option RuleResult) → load_rule_result (dump_rule_result r) ≡ ok r
unfolding load_rule_result dump_rule_result
load_rule_result-dump_rule_result none = refl
load_rule_result-dump_rule_result (some (win seat)) = refl
load_rule_result-dump_rule_result (some draw) = refl

check_result-dump_rule_result : (r : Option RuleResult) → check_result (dump_rule_result r) ≡ true
unfolding check_result dump_rule_result
check_result-dump_rule_result none = refl
check_result-dump_rule_result (some (win seat)) = refl
check_result-dump_rule_result (some draw) = refl

module _ {T : GameTypes} (class : EventClass T) where
  redump-event_payload : (e : T.Event) → redump (event_payload class e) ≡ event_payload class e
  unfolding redump event_payload audience
  redump-event_payload e = elim (Bool-cases (is_public class e)) [
    | inl public ↦ rw public refl
    | inr private ↦ rw private refl
  ]

  pub redump-dump_events :
      (es : List T.Event) → map redump (dump_events class es) ≡ dump_events class es
  redump-dump_events [] = refl
  redump-dump_events (e ∷ es) = rw (redump-event_payload e, redump-dump_events es) refl

  module _ (definition : GameDefinition T) (loads : Loads class definition) where
    open definition use {serializer}

    -- The events pass the checks.
    -- Every event is dumped, since it has a name.
    pub dump_domain_events-all :
        (es : List T.Event) → dump_domain_events class es ≡ ok (dump_events class es)
    unfolding dump_domain_events dump_domain_event
    dump_domain_events-all [] = refl
    dump_domain_events-all (e ∷ es) = rw (loads.event_named e, dump_domain_events-all es) refl

    dump_events-named : (es : List T.Event) → all_named (dump_events class es) ≡ true
    unfolding event_payload
    dump_events-named [] = refl
    dump_events-named (e ∷ es) = rw (loads.event_named e, dump_events-named es) refl

    event_fits-dump : (e : T.Event) → event_fits 4 (event_payload class e) ≡ true
    unfolding event_fits event_payload
    event_fits-dump e = elim (Bool-cases (is_public class e)) [
      | inl public ↦ unfold audience in rw public refl
      | inr private ↦ rw (loads.heard e private, private) refl
    ]

    events_fit-dump : (es : List T.Event) → events_fit 4 (dump_events class es) ≡ true
    events_fit-dump [] = refl
    events_fit-dump (e ∷ es) = rw (event_fits-dump e, events_fit-dump es) refl

    -- What a dumped turn holds.
    pub record Dumped (t : TurnRecord T) (p : TurnPayload T) : Type 0 where
      pub action : dump_optional serializer.dump_action t.action ≡ ok p.action
      pub outcome : dump_outcome serializer t.kind t.outcome ≡ ok p.outcome
      pub actions : dump_optional (dump_joint_actions serializer) t.actions ≡ ok p.actions
      pub seat : p.seat ≡ t.seat
      pub events : p.events ≡ dump_events class t.events
      pub result : p.result ≡ dump_rule_result t.result
      pub post_snapshot : p.post_snapshot ≡ t.post_snapshot
      pub kind : p.kind ≡ some t.kind

    pub dump_turn-Dumped :
        (t : TurnRecord T) (p : TurnPayload T) → dump_turn class definition t ≡ ok p → Dumped t p
    unfolding dump_turn
    dump_turn-Dumped t p h =
        let (action, a, h₁) = >>=-eq-ok (dump_optional serializer.dump_action t.action) _ h in
        let (outcome, o, h₂) = >>=-eq-ok (dump_outcome serializer t.kind t.outcome) _ h₁ in
        let (actions, j, h₃) =
          >>=-eq-ok (dump_optional (dump_joint_actions serializer) t.actions) _ h₂ in
        let (events, e, done) = >>=-eq-ok (dump_domain_events class t.events) _ h₃ in
        record {
          action = cc (a, done);
          outcome = cc (o, done);
          actions = cc (j, done);
          seat = cc done;
          events = cc (e, done, dump_domain_events-all t.events);
          result = cc done;
          post_snapshot = cc done;
          kind = cc done;
        }

    -- The turn as it is loaded.
    abbrev pub loaded_of : TurnRecord T → LoadedMatchTurn T
    loaded_of t = record {
      seat = t.seat;
      action = t.action;
      event_payloads = dump_events class t.events;
      result = t.result;
      result_payload = dump_rule_result t.result;
      post_state = t.post_state;
      post_snapshot = t.post_snapshot;
      kind = some t.kind;
      outcome = t.outcome;
      actions = t.actions;
    }

    -- The two entries of a joint turn.
    dump_joint_actions-pair :
        (a b : T.Action) (r : List (Option ℕ × T.Json))
        → dump_joint_actions serializer ((0, a) ∷ (1, b) ∷ []) ≡ ok r
        → (j : T.Json) × (k : T.Json) × (serializer.dump_action a ≡ ok j)
          × (serializer.dump_action b ≡ ok k)
          × (r ≡ (some 0, j) ∷ (some 1, k) ∷ [])
    unfolding dump_joint_actions dump_entries
    dump_joint_actions-pair a b r h =
        let (j, first, more) = >>=-eq-ok (serializer.dump_action a) _ h in
        let (rest, later, done) =
          >>=-eq-ok (dump_entries serializer (1 ∷ []) ((0, a) ∷ (1, b) ∷ [])) _ more in
        let (k, second, last) = >>=-eq-ok (serializer.dump_action b) _ later in
        (j, k, first, second, cc)

    -- What a turn that was dumped passes, and what it is loaded to.
    record Returns (t : TurnRecord T) (p : TurnPayload T) : Type 0 where
      loaded : load_turn definition p ≡ ok (loaded_of t)
      fits : kind_fits 4 p p.kind ≡ true

    load_turn-loaded_of :
        (t : TurnRecord T) (p : TurnPayload T)
        → Dumped t p
        → serializer.load_state t.post_snapshot.state ≡ ok t.post_state
        → dump_optional (load_chance_outcome serializer) p.outcome ≡ ok t.outcome
        → dump_optional serializer.load_action p.action ≡ ok t.action
        → dump_optional (load_entries serializer) p.actions ≡ ok t.actions
        → load_turn definition p ≡ ok (loaded_of t)
    unfolding load_turn
    load_turn-loaded_of t p d s o a j =
        rw
          (
            o,
            a,
            j,
            d.result,
            d.post_snapshot,
            d.events,
            d.seat,
            d.kind,
            load_rule_result-dump_rule_result t.result,
            s,
            redump-dump_events t.events,
          )
          refl

    Returns-shape :
        (t : TurnRecord T) (p : TurnPayload T)
        → Dumped t p
        → serializer.load_state t.post_snapshot.state ≡ ok t.post_state
        → Shape definition t
        → Returns t p
    unfolding kind_fits dump_outcome keys_fit seats_of load_entries
    Returns-shape t p d s (acted seat a k ts ta to tj) =
        let (j, dumped, pa) =
          dump_optional-some serializer.dump_action a t.action p.action ta d.action in
        let pj =
          dump_optional-none (dump_joint_actions serializer) t.actions p.actions tj d.actions in
        let po : p.outcome ≡ none = cc (rw k at d.outcome) in
        record {
          loaded =
              load_turn-loaded_of t p d s (rw (po, to) refl)
                (rw (pa, ta, loads.action a j dumped) refl) (rw (pj, tj) refl);
          fits = rw (d.kind, k, d.seat, ts, po, pa, pj) refl;
        }
    Returns-shape t p d s (drew o k ts ta to tj) =
        let pa = dump_optional-none serializer.dump_action t.action p.action ta d.action in
        let pj =
          dump_optional-none (dump_joint_actions serializer) t.actions p.actions tj d.actions in
        let (j, dumped, po) =
          >>=-eq-ok (dump_chance_outcome serializer o) _ (rw (k, to) at d.outcome) in
        let found : p.outcome ≡ some j = cc po in
        record {
          loaded =
              load_turn-loaded_of t p d s (rw (found, to, loads.outcome o j dumped) refl)
                (rw (pa, ta) refl) (rw (pj, tj) refl);
          fits = rw (d.kind, k, d.seat, ts, found, pa, pj) refl;
        }
    Returns-shape t p d s (joined a b k ts ta to tj) =
        let pa = dump_optional-none serializer.dump_action t.action p.action ta d.action in
        let (entries, both, pj) =
          dump_optional-some (dump_joint_actions serializer) _ t.actions p.actions tj d.actions in
        let (j, l, first, second, those) = dump_joint_actions-pair a b entries both in
        let po : p.outcome ≡ none = cc (rw k at d.outcome) in
        record {
          loaded =
              load_turn-loaded_of t p d s (rw (po, to) refl) (rw (pa, ta) refl)
                (rw (pj, tj, those, loads.action a j first, loads.action b l second) refl);
          fits = rw (d.kind, k, d.seat, ts, po, pa, pj, those) refl;
        }

    -- The turns that were dumped are loaded again, and pass the checks.
    pub record AllReturn (ts : List (TurnRecord T)) (ps : List (TurnPayload T)) : Type 0 where
      pub loaded : load_turns definition ps ≡ ok (map loaded_of ts)
      pub fit : turns_fit 4 ps ≡ true
      pub checked : check_turns ps ≡ true
      pub of_game : turns_of_game definition.game_id ps ≡ true

    pub dump_turns-AllReturn :
        (ts : List (TurnRecord T)) (ps : List (TurnPayload T))
        → AllRecorded definition ts
        → dump_turns class definition ts ≡ ok ps
        → AllReturn ts ps
    unfolding dump_turns load_turns turns_fit check_turns turns_of_game check_snapshot
    dump_turns-AllReturn [] ps all h =
        let empty : ps ≡ [] = cc in
        record {
          loaded = rw empty refl;
          fit = rw empty refl;
          checked = rw empty refl;
          of_game = rw empty refl;
        }
    dump_turns-AllReturn (t ∷ ts) ps (r, all) h =
        let (p, first, more) = >>=-eq-ok (dump_turn class definition t) _ h in
        let (rest, later, done) = >>=-eq-ok (dump_turns class definition ts) _ more in
        let d = dump_turn-Dumped t p first in
        let here =
          Returns-shape t p d (loads.state t.post_state t.post_snapshot.state r.snapshot.dumped)
            r.shape in
        let there = dump_turns-AllReturn ts rest all later in
        let both : ps ≡ p ∷ rest = cc done in
        record {
          loaded = rw (both, here.loaded, there.loaded) refl;
          fit = rw (both, d.events, events_fit-dump t.events, here.fits, there.fit) refl;
          checked =
              rw
                (
                  both,
                  d.events,
                  dump_events-named t.events,
                  d.result,
                  check_result-dump_rule_result t.result,
                  d.post_snapshot,
                  r.snapshot.version,
                  there.checked,
                )
                refl;
          of_game =
              rw
                (
                  both,
                  d.post_snapshot,
                  r.snapshot.game,
                  same_string_refl definition.game_id,
                  there.of_game,
                )
                refl;
        }
