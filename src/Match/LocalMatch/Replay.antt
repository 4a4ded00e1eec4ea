-- ===== src/Match/LocalMatch/Replay.antt =====
-- Playing a match (src/arena/match/local_match.py) and replaying what it recorded
-- (src/arena/match/transcript.py).
use mathlib.Core.Path.{subst}
use agents_arena.Prelude.{
  not, Bool, if◌then◌else◌, ℕ, ◌≡◌, refl, sym, ap, ◌∙◌, true, false, Option, none, some, List, [],
  ◌∷◌, ◌++◌, append_assoc, append-nil, arith,
}
use agents_arena.Core.Simultaneous.{acting_seats, is_joint_node, apply_joint_action, pick}
use agents_arena.Core.Simultaneous.Joint.{apply_joint_action-recorded}
use agents_arena.Core.Errors.{
  wrong_player, chance_resolution_error, raise_if, ok, ◌>>=◌, >>=-eq-ok, raise_if-eq-ok,
}
use agents_arena.Core.Chance.{ChanceRng, make_rng}
use agents_arena.Core.Engine.{GameTypes, GameDefinition, SeatMap, TransitionResult}
use agents_arena.Core.Nodes.{is_chance_node}
use agents_arena.Match.LocalMatch.{
  action_turn, joint_turn, SnapshotEnvelope, LocalMatch, build_snapshot, resolve_one,
  drain_chance_nodes, advance, start, start_match, start_replay_match, choose_seed,
  apply_match_action, apply_match_joint_action, apply_match_chance, turn_record, replay_turn,
  replay, MatchCall, act, act_jointly, resolve, step, play,
}
use agents_arena.Match.LocalMatch.Extends
use agents_arena.Match.LocalMatch.Extends.{silent, moved, Extends}

module _ {T : GameTypes} (definition : GameDefinition T) where
  open definition use {rules_engine as rules}

  -- What the three stepping functions record is accepted again by a match without a generator.
  action-replays :
      (m : LocalMatch T) (seat : ℕ) (action : T.Action)
      (transition : TransitionResult T.State T.Event) (snapshot : SnapshotEnvelope T)
      → is_chance_node rules m.rules_engine m.state ≡ false
      → is_joint_node rules m.rules_engine m.state ≡ ok false
      → rules.apply_action m.rules_engine m.state seat action ≡ ok transition
      → build_snapshot definition m.config transition.state ≡ ok snapshot
      → replay_turn definition (silent m) action_turn (some seat) (some action) none none
        ≡ ok (
            moved m transition.state (
              m.turns
              ++ turn_record definition action_turn
                  (some seat)
                  (some action)
                  none
                  none
                  transition
                  snapshot
                ∷ []))
  unfolding replay_turn apply_match_action advance drain_chance_nodes
  action-replays m seat action transition snapshot c j a b = rw (c, j, a, b)

  joint-replays :
      (m : LocalMatch T) (recorded : SeatMap T.Action) (seats : List ℕ) (a b : T.Action)
      (transition : TransitionResult T.State T.Event) (snapshot : SnapshotEnvelope T)
      → recorded ≡ (0, a) ∷ (1, b) ∷ []
      → apply_joint_action rules m.rules_engine m.state recorded ≡ ok transition
      → acting_seats rules m.rules_engine m.state ≡ ok seats
      → pick seats recorded ≡ ok recorded
      → build_snapshot definition m.config transition.state ≡ ok snapshot
      → replay_turn definition (silent m) joint_turn none none none (some recorded)
        ≡ ok (
            moved m transition.state (
              m.turns
              ++ turn_record definition joint_turn none none none
                  (some recorded)
                  transition
                  snapshot
                ∷ []))
  unfolding replay_turn apply_match_joint_action advance drain_chance_nodes
  joint-replays m [] seats a b transition snapshot e j s p q = cc
  joint-replays m (entry ∷ entries) seats a b transition snapshot e j s p q = rw (j, s, p, q)

  apply_match_action-Extends :
      (m m' : LocalMatch T) (seat : ℕ) (action : T.Action)
      → apply_match_action definition m seat action ≡ ok m'
      → Extends definition m m'
  unfolding apply_match_action
  apply_match_action-Extends m m' seat action h =
      let (u, awake, h₁) =
        >>=-eq-ok (raise_if (is_chance_node rules m.rules_engine m.state) chance_resolution_error) _
          h in
      let (is_joint, asked, h₂) = >>=-eq-ok (is_joint_node rules m.rules_engine m.state) _ h₁ in
      let (v, alone, h₃) = >>=-eq-ok (raise_if is_joint wrong_player) _ h₂ in
      let (transition, applied, h₄) =
        >>=-eq-ok (rules.apply_action m.rules_engine m.state seat action) _ h₃ in
      let (snapshot, built, h₅) =
        >>=-eq-ok (build_snapshot definition m.config transition.state) _ h₄ in
      Extends.advance-Extends definition m m' transition.state
        (turn_record definition action_turn (some seat) (some action) none none transition snapshot)
        (action-replays m seat action transition snapshot (raise_if-eq-ok _ _ awake)
          (asked ∙ ap ok (raise_if-eq-ok _ _ alone)) applied built)
        h₅

  apply_match_joint_action-Extends :
      (m m' : LocalMatch T) (actions : SeatMap T.Action)
      → apply_match_joint_action definition m actions ≡ ok m'
      → Extends definition m m'
  unfolding apply_match_joint_action
  apply_match_joint_action-Extends m m' actions h =
      let (transition, applied, h₁) =
        >>=-eq-ok (apply_joint_action rules m.rules_engine m.state actions) _ h in
      let (seats, acting, h₂) = >>=-eq-ok (acting_seats rules m.rules_engine m.state) _ h₁ in
      let (recorded, picked, h₃) = >>=-eq-ok (pick seats actions) _ h₂ in
      let (snapshot, built, h₄) =
        >>=-eq-ok (build_snapshot definition m.config transition.state) _ h₃ in
      let (a, b, those, again, same) =
        apply_joint_action-recorded rules m.rules_engine m.state actions recorded seats applied
          acting picked in
      Extends.advance-Extends definition m m' transition.state
        (turn_record definition joint_turn none none none (some recorded) transition snapshot)
        (joint-replays m recorded seats a b transition snapshot those same acting again built) h₄

  apply_match_chance-Extends :
      (m m' : LocalMatch T) (outcome : T.Outcome)
      → apply_match_chance definition m outcome ≡ ok m'
      → Extends definition m m'
  unfolding apply_match_chance
  apply_match_chance-Extends m m' outcome h =
      let (u, pending, h₁) =
        >>=-eq-ok
          (raise_if (not (is_chance_node rules m.rules_engine m.state)) chance_resolution_error) _
          h in
      let ((state, turn), resolved, h₂) =
        >>=-eq-ok (resolve_one definition m.rules_engine m.config m.state outcome) _ h₁ in
      Extends.advance-Extends definition m m' state turn
        (Extends.replay_turn-chance definition m outcome state turn
          (ground (arith, raise_if-eq-ok _ _ pending)) resolved)
        h₂

  step-Extends :
      (m m' : LocalMatch T) (call : MatchCall T)
      → step definition m call ≡ ok m'
      → Extends definition m m'
  unfolding step
  step-Extends m m' (act seat action) h = apply_match_action-Extends m m' seat action h
  step-Extends m m' (act_jointly actions) h = apply_match_joint_action-Extends m m' actions h
  step-Extends m m' (resolve outcome) h = apply_match_chance-Extends m m' outcome h

  Extends-trans :
      (m m₁ m₂ : LocalMatch T)
      → Extends definition m m₁
      → Extends definition m₁ m₂
      → Extends definition m m₂
  Extends-trans m m₁ m₂ e f = record {
    more = e.more ++ f.more;
    turns = f.turns ∙ ap (λ ts. ts ++ f.more) e.turns ∙ append_assoc m.turns e.more f.more;
    replays = Extends.replay-append definition (silent m) e.more f.more e.replays ∙ f.replays;
  }

  -- Every match that is played on extends the match that it began with.
  pub play-Extends :
      (calls : List (MatchCall T)) (m m' : LocalMatch T)
      → play definition m calls ≡ ok m'
      → Extends definition m m'
  unfolding play replay
  play-Extends [] m m' h = record {
    more = [];
    turns = ground (arith, append-nil m.turns);
    replays = ground arith;
  }
  play-Extends (call ∷ calls) m m' h =
      let (m₁, first, rest) =
        >>=-eq-ok (step definition m call) (λ m₁. play definition m₁ calls) h in
      Extends-trans m m₁ m' (step-Extends m m₁ call first) (play-Extends calls m₁ m' rest)

  -- A started match extends the replay match of its configuration, which has no turns yet.
  start-Extends :
      (config : T.Config) (rng : Option ChanceRng) (m : LocalMatch T)
      → start definition config rng ≡ ok m
      → (r : LocalMatch T) × (start_replay_match definition config ≡ ok r)
        × (r.turns ≡ [])
        × (silent r ≡ r)
        × Extends definition r m
  unfolding start start_replay_match drain_chance_nodes
  start-Extends config rng m h =
      let ((engine, state), opened, h₁) =
        >>=-eq-ok (rules.initial_state definition.engine config) _ h in
      let (snapshot, built, h₂) = >>=-eq-ok (build_snapshot definition config state) _ h₁ in
      let ((state', turns', rng'), drained, made) =
        >>=-eq-ok (drain_chance_nodes definition engine config state [] rng) _ h₂ in
      let r : LocalMatch T = record {
        rules_engine = engine;
        config = config;
        state = state;
        initial_snapshot = snapshot;
        turns = [];
        rng = none;
      } in
      (
        r,
        rw (opened, built),
        refl,
        refl,
        subst (Extends definition r) (cc made)
            (Extends.drain-replays definition r rng state' turns' rng' drained),
      )

  start_choice :
      (chance : Bool) (config : T.Config) (seed : ℕ) (m : LocalMatch T)
      → (if chance
          then (do rng ← make_rng seed 0; start definition config (some rng))
          else start definition config none)
        ≡ ok m
      → (rng : Option ChanceRng) × (start definition config rng ≡ ok m)
  start_choice true config seed m h =
      let (rng, made, h₁) =
        >>=-eq-ok (make_rng seed 0) (λ rng. start definition config (some rng)) h in
      (some rng, h₁)
  start_choice false config seed m h = (none, h)

  pub start_match-Extends :
      (config : T.Config) (seed : Option ℕ) (minted : ℕ) (m : LocalMatch T)
      → start_match definition config seed minted ≡ ok m
      → (r : LocalMatch T) × (start_replay_match definition config ≡ ok r)
        × (r.turns ≡ [])
        × (silent r ≡ r)
        × Extends definition r m
  unfolding start_match
  start_match-Extends config seed minted m h =
      let (rng, started) =
        start_choice definition.has_chance_nodes config (choose_seed definition seed minted) m h in
      start-Extends config rng m started

  -- Whatever is played on a started match, its turns replay, from the configuration alone and with
  -- no generator, to the same match: the state, the turns and the snapshots are those of the match.
  pub replay-play :
      (config : T.Config) (seed : Option ℕ) (minted : ℕ) (calls : List (MatchCall T))
      (m₀ m : LocalMatch T)
      → start_match definition config seed minted ≡ ok m₀
      → play definition m₀ calls ≡ ok m
      → (r : LocalMatch T) × (start_replay_match definition config ≡ ok r)
        × (replay definition r m.turns ≡ ok (silent m))
  replay-play config seed minted calls m₀ m started played =
      let (r, opened, empty, quiet, e) = start_match-Extends config seed minted m₀ started in
      let whole = Extends-trans r m₀ m e (play-Extends calls m₀ m played) in
      (
        r,
        opened,
        ap (replay definition r) (whole.turns ∙ ap (λ ts. ts ++ whole.more) empty)
            ∙ ap (λ x. replay definition x whole.more) (sym quiet)
            ∙ whole.replays,
      )
