-- ===== src/Match/LocalMatch/Settled.antt =====
-- The draining of chance nodes of src/arena/match/local_match.py, in a live match.
use mathlib.Core.Path.{subst}
use agents_arena.Prelude.{
  ℕ, zero, suc, ◌≡◌, refl, Bool-cases, inl, inr, true, false, Option, none, some, List, [], ◌∷◌,
  ◌++◌, arith, not,
}
use agents_arena.Core.Errors.{ok, >>=-eq-ok, raise_if, wrong_player, chance_resolution_error}
use agents_arena.Core.Chance.{ChanceRng, make_rng}
use agents_arena.Core.Engine.{GameTypes, GameDefinition}
use agents_arena.Core.Nodes.{is_chance_node, sample_chance}
use agents_arena.Core.Simultaneous.{acting_seats, is_joint_node, apply_joint_action, pick}
use agents_arena.Match.LocalMatch.{
  TurnRecord, LocalMatch, build_snapshot, resolve_one, drain_loop, drain_chance_nodes, advance,
  start, start_match, apply_match_action, apply_match_joint_action, apply_match_chance, turn_record,
  choose_seed, MatchCall, act, act_jointly, resolve, step, play, action_turn, joint_turn,
  max_consecutive_chance_steps,
}

module _ {T : GameTypes} (definition : GameDefinition T) where
  open definition use {rules_engine as rules}

  -- The match has a generator, and no chance node is pending.
  pub record IsSettled (m : LocalMatch T) : Type 0 where
    pub rng : ChanceRng
    pub seeded : m.rng ≡ some rng
    pub awake : is_chance_node rules m.rules_engine m.state ≡ false

  drain_loop-awake :
      (left : ℕ) (engine : T.Engine) (config : T.Config) (state : T.State)
      (turns : List (TurnRecord T)) (rng : ChanceRng) (state' : T.State)
      (turns' : List (TurnRecord T)) (rng' : Option ChanceRng)
      → drain_loop definition left engine config state turns rng ≡ ok (state', turns', rng')
      → (r : ChanceRng) × (rng' ≡ some r) × (is_chance_node rules engine state' ≡ false)
  unfolding drain_loop
  drain_loop-awake zero engine config state turns rng state' turns' rng' h =
      (rng, ground arith, ground arith)
  drain_loop-awake (suc left) engine config state turns rng state' turns' rng' h =
      elim (Bool-cases (is_chance_node rules engine state)) [
        | inl pending ↦
            let ((outcome, rng₁), sampled, next) =
              >>=-eq-ok (sample_chance rules engine state rng) _ (rw pending at h) in
            let ((state₁, turn), resolved, rest) =
              >>=-eq-ok (resolve_one definition engine config state outcome) _ next in
            drain_loop-awake left engine config state₁ (turns ++ turn ∷ []) rng₁ state' turns' rng'
              rest
        | inr settled ↦ (rng, ground arith, ground arith)
      ]

  drain-awake :
      (engine : T.Engine) (config : T.Config) (state : T.State) (turns : List (TurnRecord T))
      (rng₀ : Option ChanceRng) (rng : ChanceRng) (state' : T.State) (turns' : List (TurnRecord T))
      (rng' : Option ChanceRng)
      → rng₀ ≡ some rng
      → drain_chance_nodes definition engine config state turns rng₀ ≡ ok (state', turns', rng')
      → (r : ChanceRng) × (rng' ≡ some r) × (is_chance_node rules engine state' ≡ false)
  unfolding drain_chance_nodes
  drain-awake engine config state turns none rng state' turns' rng' s h = cc
  drain-awake engine config state turns (some rng₀) rng state' turns' rng' s h =
      drain_loop-awake max_consecutive_chance_steps engine config state turns rng₀ state' turns'
        rng' h

  advance-IsSettled :
      (m m' : LocalMatch T) (rng : ChanceRng) (state : T.State) (turn : TurnRecord T)
      → m.rng ≡ some rng
      → advance definition m state turn ≡ ok m'
      → IsSettled m'
  unfolding advance
  advance-IsSettled m m' rng state turn s h =
      let ((state', turns', rng'), drained, made) =
        >>=-eq-ok
          (drain_chance_nodes definition m.rules_engine m.config state (m.turns ++ turn ∷ []) m.rng)
          _ h in
      let (r, seeded, awake) =
        drain-awake m.rules_engine m.config state (m.turns ++ turn ∷ []) m.rng rng state' turns'
          rng' s drained in
      subst IsSettled {x = record m { state = state'; turns = turns'; rng = rng' }} (cc made)
        (record { rng = r; seeded = seeded; awake = awake })

  -- A step of any kind that succeeds goes on by `advance`.
  step-advance :
      (m m' : LocalMatch T) (call : MatchCall T)
      → step definition m call ≡ ok m'
      → (state : T.State) × (turn : TurnRecord T) × (advance definition m state turn ≡ ok m')
  unfolding step apply_match_action apply_match_joint_action apply_match_chance
  step-advance m m' (act seat action) h =
      let (u, awake, h₁) =
        >>=-eq-ok (raise_if (is_chance_node rules m.rules_engine m.state) chance_resolution_error) _
          h in
      let (is_joint, asked, h₂) = >>=-eq-ok (is_joint_node rules m.rules_engine m.state) _ h₁ in
      let (v, alone, h₃) = >>=-eq-ok (raise_if is_joint wrong_player) _ h₂ in
      let (transition, applied, h₄) =
        >>=-eq-ok (rules.apply_action m.rules_engine m.state seat action) _ h₃ in
      let (snapshot, built, h₅) =
        >>=-eq-ok (build_snapshot definition m.config transition.state) _ h₄ in
      (
        transition.state,
        turn_record definition action_turn (some seat) (some action) none none transition snapshot,
        h₅,
      )
  step-advance m m' (act_jointly actions) h =
      let (transition, applied, h₁) =
        >>=-eq-ok (apply_joint_action rules m.rules_engine m.state actions) _ h in
      let (seats, acting, h₂) = >>=-eq-ok (acting_seats rules m.rules_engine m.state) _ h₁ in
      let (recorded, picked, h₃) = >>=-eq-ok (pick seats actions) _ h₂ in
      let (snapshot, built, h₄) =
        >>=-eq-ok (build_snapshot definition m.config transition.state) _ h₃ in
      (
        transition.state,
        turn_record definition joint_turn none none none (some recorded) transition snapshot,
        h₄,
      )
  step-advance m m' (resolve outcome) h =
      let (u, pending, h₁) =
        >>=-eq-ok
          (raise_if (not (is_chance_node rules m.rules_engine m.state)) chance_resolution_error) _
          h in
      let ((state, turn), resolved, h₂) =
        >>=-eq-ok (resolve_one definition m.rules_engine m.config m.state outcome) _ h₁ in
      (state, turn, h₂)

  -- Every step of a settled match ends in a settled match.
  pub play-IsSettled :
      (calls : List (MatchCall T)) (m m' : LocalMatch T)
      → IsSettled m
      → play definition m calls ≡ ok m'
      → IsSettled m'
  unfolding play
  play-IsSettled [] m m' s h = subst IsSettled (cc) s
  play-IsSettled (call ∷ calls) m m' s h =
      let (m₁, first, rest) =
        >>=-eq-ok (step definition m call) (λ m₁. play definition m₁ calls) h in
      let (state, turn, advanced) = step-advance m m₁ call first in
      play-IsSettled calls m₁ m' (advance-IsSettled m m₁ s.rng state turn s.seeded advanced) rest

  start-IsSettled :
      (config : T.Config) (rng : ChanceRng) (m : LocalMatch T)
      → start definition config (some rng) ≡ ok m
      → IsSettled m
  unfolding start
  start-IsSettled config rng m h =
      let ((engine, state), opened, h₁) =
        >>=-eq-ok (rules.initial_state definition.engine config) _ h in
      let (snapshot, built, h₂) = >>=-eq-ok (build_snapshot definition config state) _ h₁ in
      let ((state', turns', rng'), drained, made) =
        >>=-eq-ok (drain_chance_nodes definition engine config state [] (some rng)) _ h₂ in
      let (r, seeded, awake) =
        drain-awake engine config state [] (some rng) rng state' turns' rng' refl drained in
      subst IsSettled
        {x = record {
          rules_engine = engine;
          config = config;
          state = state';
          initial_snapshot = snapshot;
          turns = turns';
          rng = rng';
        }}
        (cc made) (record { rng = r; seeded = seeded; awake = awake })

  -- A started match of a game with chance nodes, however it is played on, has no chance node
  -- pending: a seat is to move, or the match is over.
  pub start_match-IsSettled :
      (config : T.Config) (seed : Option ℕ) (minted : ℕ) (calls : List (MatchCall T))
      (m₀ m : LocalMatch T)
      → definition.has_chance_nodes ≡ true
      → start_match definition config seed minted ≡ ok m₀
      → play definition m₀ calls ≡ ok m
      → is_chance_node rules m.rules_engine m.state ≡ false
  unfolding start_match
  start_match-IsSettled config seed minted calls m₀ m c h played =
      let (rng, made, h₁) =
        >>=-eq-ok (make_rng (choose_seed definition seed minted) 0)
          (λ rng. start definition config (some rng)) (simp c at h) in
      (play-IsSettled calls m₀ m (start-IsSettled config rng m₀ h₁) played).awake
