-- ===== src/Games/Nim/Policies.antt =====
-- Matches and sessions of Nim, src/arena/games/nim, that policies play: src/arena/match/policy.py and
-- src/arena/runtime/session.py.
use mathlib.Core.Path.{subst}
use agents_arena.Prelude.{
  ℕ, ◌+◌, ◌*◌, ◌≡◌, Option, none, some, sym, refl, ap, arith, sum, [], List, Bool-cases, inl, inr,
  true, false, String, ◌∷◌,
}
use agents_arena.Core.Errors.{Result, ok, >>=-eq-ok}
use agents_arena.Core.Engine.{SeatMap, Serializer}
use agents_arena.Core.Nodes.{is_chance_node}
use agents_arena.Core.Simultaneous.{acting_seats, is_joint_node, apply_joint_action}
use agents_arena.Core.Simultaneous.Joint.{apply_joint_action-unhooked}
use agents_arena.Match.LocalMatch.{
  LocalMatch, act, act_jointly, resolve, drain_chance_nodes, start, start_match,
  apply_match_joint_action, build_snapshot, step,
}
use agents_arena.Match.Policy.{Policy, run_local_match}
use agents_arena.Match.Policy.Turns.{Lowers, Ended, apply_match_action-silent, run_local_match-ends}
use agents_arena.Adapters.InProcess.{PayloadPolicy}
use agents_arena.Runtime.Session.{
  PlayerRecord, MatchSession, is_created, is_over, create_session, run_session,
}
use agents_arena.Runtime.Session.Ends.{run_session-ends}
use agents_arena.Games.Nim.{is_terminal, NimConfig, nim_types, nim_rules, initial_state}
use agents_arena.Games.Nim.Definition.{build_nim_game_definition}
use agents_arena.Games.Nim.Length.{apply_action-sum, initial_state-IsValid, sum-replicate}
use agents_arena.Games.Nim.Moves.{IsValid}

-- A match of Nim in a state that the constructor accepts, without a generator.
record IsSound {Json : Type 0} (m : LocalMatch (nim_types Json)) : Type 0 where
  valid : IsValid m.state
  silent : m.rng ≡ none

objects : {Json : Type 0} → LocalMatch (nim_types Json) → ℕ
objects m = sum m.state.piles

module _ {Json : Type 0} (engine : NimConfig) (serializer : Serializer (nim_types Json)) where
  nim_step-Lowers : Lowers (build_nim_game_definition engine serializer) IsSound objects
  unfolding Lowers step apply_match_joint_action objects
  nim_step-Lowers m m' (act seat action) v h =
      let (t, applied, same, still) =
        apply_match_action-silent (build_nim_game_definition engine serializer) m m' seat action
          v.silent h in
      let (less, valid) = apply_action-sum m.rules_engine m.state seat action v.valid applied in
      (
        record { valid = subst IsValid (sym same) valid; silent = still },
        omega (arith, less, ap (λ s. sum s.piles) same),
      )
  nim_step-Lowers m m' (act_jointly actions) v h = absurd (
      apply_joint_action-unhooked (nim_rules Json) m.rules_engine m.state actions refl
        (>>=-eq-ok (apply_joint_action (nim_rules Json) m.rules_engine m.state actions) _ h).1)
  nim_step-Lowers m m' (resolve outcome) v h = elim outcome [ ]

  -- The match that begins in the initial state of the configuration.
  nim_start-IsSound :
      (config : NimConfig) (seed : Option ℕ) (minted : ℕ) (m : LocalMatch (nim_types Json))
      → start_match (build_nim_game_definition engine serializer) config seed minted ≡ ok m
      → IsSound m × (objects m ≡ config.num_piles * config.max_pile_size)
  unfolding start_match start drain_chance_nodes objects
  nim_start-IsSound config seed minted m h =
      let ((started, state), initial, h₁) = >>=-eq-ok (initial_state engine config) _ h in
      let (snapshot, built, h₂) =
        >>=-eq-ok (build_snapshot (build_nim_game_definition engine serializer) config state) _
          h₁ in
      let (valid, full) = initial_state-IsValid engine config state initial in
      let begun : record {
        rules_engine = started;
        config = config;
        state = state;
        initial_snapshot = snapshot;
        turns = [];
        rng = none;
      }
          ≡ m =
        cc in
      (
        record {
          valid = subst IsValid (ap (λ n. n.state) begun) valid;
          silent = ap (λ n. n.rng) (sym begun);
        },
        omega (
          arith,
          ap (λ n. objects n) begun,
          ap sum full,
          sum-replicate config.num_piles config.max_pile_size,
        ),
      )

  -- Whatever policies play a started match of Nim, the loop of run_local_match ends within
  -- num_piles * max_pile_size + 1 rounds: with what a turn raised while the match was not over, or
  -- over, after steps that were played.
  pub nim_run_local_match-ends :
      (config : NimConfig) (seed : Option ℕ) (minted : ℕ) (m : LocalMatch (nim_types Json))
      (policies : SeatMap (Policy (nim_types Json)))
      → start_match (build_nim_game_definition engine serializer) config seed minted ≡ ok m
      → (r : Result (LocalMatch (nim_types Json))) × (run_local_match
            (build_nim_game_definition engine serializer)
            (config.num_piles * config.max_pile_size + 1)
            m
            policies
          ≡ some r)
        × Ended (build_nim_game_definition engine serializer) policies m r
  nim_run_local_match-ends config seed minted m policies h =
      let (v, count) = nim_start-IsSound config seed minted m h in
      run_local_match-ends (build_nim_game_definition engine serializer) IsSound objects
        nim_step-Lowers (config.num_piles * config.max_pile_size + 1) m policies v
        (omega (arith, count))

  -- Nim has one seat to move at a time, or none.
  nim_turns :
      (m : LocalMatch (nim_types Json))
      → (is_joint_node (nim_rules Json) m.rules_engine m.state ≡ ok false)
        × (seats : List ℕ) × (acting_seats (nim_rules Json) m.rules_engine m.state ≡ ok seats)
  unfolding is_joint_node acting_seats is_chance_node
  nim_turns m = elim (Bool-cases (is_terminal m.rules_engine m.state)) [
    | inl over ↦ (rw over refl, [], rw over refl)
    | inr going ↦ (rw going refl, m.state.current_seat ∷ [], rw going refl)
  ]

  -- Whatever policies are bound to a created session of Nim, or none, run_session returns within
  -- num_piles * max_pile_size + 1 steps, with a session that is finished or aborted.
  pub nim_run_session-ends :
      (config : NimConfig) (players : List PlayerRecord) (bindings : SeatMap (PayloadPolicy Json))
      (match_id : String) (minted : ℕ) (s : MatchSession (nim_types Json))
      → create_session config players bindings match_id ≡ ok s
      → (s' : MatchSession (nim_types Json)) × (run_session
            (build_nim_game_definition engine serializer)
            (config.num_piles * config.max_pile_size + 1)
            minted
            s
          ≡ ok s')
        × (is_over s'.lifecycle ≡ true)
  unfolding create_session
  nim_run_session-ends config players bindings match_id minted s h =
      let kept : s.config ≡ config = ground arith in
      let fresh : is_created s.lifecycle ≡ true = ground arith in
      run_session-ends (build_nim_game_definition engine serializer) IsSound objects nim_step-Lowers
        nim_turns (config.num_piles * config.max_pile_size + 1) minted s
        (λ m opened.
          let (v, count) = nim_start-IsSound config none minted m (rw kept at opened) in
          (v, omega (arith, count)))
        fresh
