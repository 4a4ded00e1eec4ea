-- ===== src/Match/Policy/Turns.antt =====
-- The turns of policies of src/arena/match/policy.py as steps of a match, and the end of the loop.
use agents_arena.Prelude.{
  ℕ, zero, suc, ◌+◌, ◌≤◌, ◌<◌, ◌≡◌, ◌⊎◌, Bool-cases, inl, inr, refl, true, false, none, some, List,
  [], ◌∷◌, ◌++◌, ap, sym, arith, length, ltb,
}
use agents_arena.Core.Errors.{
  Error, Result, ok, err, raise_if, chance_resolution_error, wrong_player, >>=-eq-ok,
}
use agents_arena.Core.Engine.{GameTypes, TransitionResult, SeatMap, GameDefinition}
use agents_arena.Core.Nodes.{is_chance_node}
use agents_arena.Core.Simultaneous.{acting_seats, is_joint_node}
use agents_arena.Match.LocalMatch.{
  TurnRecord, LocalMatch, MatchCall, build_snapshot, drain_chance_nodes, advance, act, act_jointly,
  apply_match_action, apply_match_joint_action, step, play,
}
use agents_arena.Match.Policy.{
  Policy, turn, go_on, ask_policy, ask_policies, asked_seat, joint_turn, single_turn,
  apply_policy_turn, run_local_match,
}

Result-cases : {A : Type 0} (r : Result A) → ((a : A) × (r ≡ ok a)) ⊎ ((e : Error) × (r ≡ err e))
Result-cases (ok a) = inl (a, refl)
Result-cases (err e) = inr (e, refl)

module _ {T : GameTypes} (definition : GameDefinition T) where
  open definition use {rules_engine as rules}

  -- A turn that the policies complete is one call of a stepping function.
  pub apply_policy_turn-step :
      (m m' : LocalMatch T) (policies : SeatMap (Policy T))
      → apply_policy_turn definition m policies ≡ ok m'
      → (call : MatchCall T) × (step definition m call ≡ ok m')
  unfolding apply_policy_turn turn joint_turn single_turn step
  apply_policy_turn-step m m' policies h =
      let (seats, acting, taken) =
        >>=-eq-ok (acting_seats rules m.rules_engine m.state)
          (λ seats. turn definition m seats policies) h in
      elim (Bool-cases (ltb 1 (length seats))) [
        | inl many ↦
            let (actions, asked, applied) =
              >>=-eq-ok (ask_policies definition m seats policies)
                (apply_match_joint_action definition m) (cc) in
            (act_jointly actions, applied)
        | inr few ↦
            let (action, asked, applied) =
              >>=-eq-ok (ask_policy definition m (asked_seat definition m seats) policies)
                (apply_match_action definition m (asked_seat definition m seats)) (cc) in
            (act (asked_seat definition m seats) action, applied)
      ]

  advance-moves :
      (m : LocalMatch T) (state : T.State) (turn : TurnRecord T)
      → m.rng ≡ none
      → advance definition m state turn
        ≡ ok (record m { state = state; turns = m.turns ++ turn ∷ []; rng = none })
  unfolding advance drain_chance_nodes
  advance-moves m state turn silent = rw silent refl

  -- Without a generator, a step takes the state of its transition.
  advance-silent :
      (m m' : LocalMatch T) (state : T.State) (turn : TurnRecord T)
      → m.rng ≡ none
      → advance definition m state turn ≡ ok m'
      → (m'.state ≡ state) × (m'.rng ≡ none)
  advance-silent m m' state turn silent h =
      let moved : record m { state = state; turns = m.turns ++ turn ∷ []; rng = none } ≡ m' =
        cc (advance-moves m state turn silent, h) in
      (ap (λ n. n.state) (sym moved), ap (λ n. n.rng) (sym moved))

  pub apply_match_action-silent :
      (m m' : LocalMatch T) (seat : ℕ) (action : T.Action)
      → m.rng ≡ none
      → apply_match_action definition m seat action ≡ ok m'
      → (t : TransitionResult T.State T.Event) × (rules.apply_action m.rules_engine m.state seat
            action
          ≡ ok t)
        × (m'.state ≡ t.state)
        × (m'.rng ≡ none)
  unfolding apply_match_action
  apply_match_action-silent m m' seat action silent h =
      let (u, awake, h₁) =
        >>=-eq-ok (raise_if (is_chance_node rules m.rules_engine m.state) chance_resolution_error) _
          h in
      let (is_joint, asked, h₂) = >>=-eq-ok (is_joint_node rules m.rules_engine m.state) _ h₁ in
      let (v, alone, h₃) = >>=-eq-ok (raise_if is_joint wrong_player) _ h₂ in
      let (t, applied, h₄) =
        >>=-eq-ok (rules.apply_action m.rules_engine m.state seat action) _ h₃ in
      let (snapshot, built, h₅) = >>=-eq-ok (build_snapshot definition m.config t.state) _ h₄ in
      let (same, still) = advance-silent m m' t.state _ silent h₅ in (t, applied, same, still)

  -- How a match ends, after steps that were played: with the exception of the next turn, or over.
  unfoldable pub Ended : SeatMap (Policy T) → LocalMatch T → Result (LocalMatch T) → Type 0
  Ended policies m (err e) =
      (calls : List (MatchCall T)) × (m' : LocalMatch T) × (play definition m calls ≡ ok m')
      × (rules.is_terminal m'.rules_engine m'.state ≡ false)
      × (apply_policy_turn definition m' policies ≡ err e)
  Ended policies m (ok m') =
      (calls : List (MatchCall T)) × (play definition m calls ≡ ok m')
      × (rules.is_terminal m'.rules_engine m'.state ≡ true)

  play-nil : (m : LocalMatch T) → play definition m [] ≡ ok m
  unfolding play
  play-nil m = refl

  play-cons :
      (m m' m'' : LocalMatch T) (call : MatchCall T) (calls : List (MatchCall T))
      → step definition m call ≡ ok m'
      → play definition m' calls ≡ ok m''
      → play definition m (call ∷ calls) ≡ ok m''
  unfolding play
  play-cons m m' m'' call calls h played = rw h played

  -- A step in front of how a match ends.
  Ended-step :
      (policies : SeatMap (Policy T)) (m m' : LocalMatch T) (call : MatchCall T)
      (r : Result (LocalMatch T))
      → step definition m call ≡ ok m'
      → Ended policies m' r
      → Ended policies m r
  unfolding Ended
  Ended-step policies m m' call (err e) h (calls, m'', played, going, raised) =
      (call ∷ calls, m'', play-cons m m' m'' call calls h played, going, raised)
  Ended-step policies m m' call (ok m'') h (calls, played, over) =
      (call ∷ calls, play-cons m m' m'' call calls h played, over)

  -- A measure of matches that every step lowers, where `Inv` holds and goes on to hold.
  unfoldable pub Lowers : (LocalMatch T → Type 0) → (LocalMatch T → ℕ) → Type 0
  Lowers Inv measure =
      (m m' : LocalMatch T) (call : MatchCall T)
      → Inv m
      → step definition m call ≡ ok m'
      → Inv m' × (measure m' + 1 ≤ measure m)

  module _ (Inv : LocalMatch T → Type 0) (measure : LocalMatch T → ℕ) where
    -- Where every step lowers a measure, more rounds than it says are enough for the loop to end.
    pub run_local_match-ends :
        Lowers Inv measure
        → (rounds : ℕ) (m : LocalMatch T) (policies : SeatMap (Policy T)) → Inv m
        → measure m < rounds
        → (r : Result (LocalMatch T)) × (run_local_match definition rounds m policies ≡ some r)
          × Ended policies m r
    unfolding run_local_match go_on Ended Lowers
    run_local_match-ends lowers zero m policies v fits = absurd (omega arith)
    run_local_match-ends lowers (suc rounds) m policies v fits =
        elim (Bool-cases (rules.is_terminal m.rules_engine m.state)) [
          | inl over ↦ (ok m, rw over refl, ([], play-nil m, over))
          | inr going ↦ elim (Result-cases (apply_policy_turn definition m policies)) [
            | inr (e, raised) ↦ (err e, rw (going, raised) refl, ([], m, play-nil m, going, raised))
            | inl (m', turned) ↦
                let (call, h) = apply_policy_turn-step m m' policies turned in
                let (v', less) = lowers m m' call v h in
                let (r, rest, ended) =
                  run_local_match-ends lowers rounds m' policies v' (omega arith) in
                (r, rw (going, turned) rest, Ended-step policies m m' call r h ended)
          ]
        ]
