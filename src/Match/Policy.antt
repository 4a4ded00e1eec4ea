-- ===== src/Match/Policy.antt =====
-- src/arena/match/policy.py: policies that play a local match. A policy is a function from an
-- observation to an action, which may raise; one that keeps state between its turns is not modelled.
pub mod Turns
use agents_arena.Prelude.{
  ℕ, zero, suc, Bool, Option, none, some, List, [], ◌∷◌, length, ltb, if◌then◌else◌,
}
use agents_arena.Core.Errors.{Result, ok, err, ◌>>=◌}
use agents_arena.Core.Engine.{GameTypes, SeatMap, GameDefinition}
use agents_arena.Core.Simultaneous.{acting_seats, get_seat}
use agents_arena.Match.LocalMatch.{LocalMatch, apply_match_action, apply_match_joint_action}

abbrev pub Policy : GameTypes → Type 0
Policy T = T.Observation → Result T.Action

module _ {T : GameTypes} (definition : GameDefinition T) where
  open definition use {rules_engine as rules}

  unfoldable pub ask_policy : LocalMatch T → ℕ → SeatMap (Policy T) → Result T.Action
  ask_policy m seat policies = do
    policy ← get_seat seat policies
    observation ← rules.observation m.rules_engine m.state seat
    policy observation

  -- At a joint node every acting seat is asked, each from its own observation of the same state.
  unfoldable pub ask_policies :
      LocalMatch T → List ℕ → SeatMap (Policy T) → Result (SeatMap T.Action)
  unfolding ask_policy
  ask_policies m [] policies = ok []
  ask_policies m (seat ∷ seats) policies = do
    action ← ask_policy m seat policies
    actions ← ask_policies m seats policies
    ok ((seat, action) ∷ actions)

  -- `seats[0] if seats else current_seat`.
  unfoldable pub asked_seat : LocalMatch T → List ℕ → ℕ
  asked_seat m [] = rules.current_seat m.rules_engine m.state
  asked_seat m (seat ∷ seats) = seat

  unfoldable pub joint_turn : LocalMatch T → List ℕ → SeatMap (Policy T) → Result (LocalMatch T)
  unfolding ask_policies
  joint_turn m seats policies = do
    actions ← ask_policies m seats policies
    apply_match_joint_action definition m actions

  unfoldable pub single_turn : LocalMatch T → ℕ → SeatMap (Policy T) → Result (LocalMatch T)
  unfolding ask_policy
  single_turn m seat policies = do
    action ← ask_policy m seat policies
    apply_match_action definition m seat action

  unfoldable pub turn : LocalMatch T → List ℕ → SeatMap (Policy T) → Result (LocalMatch T)
  unfolding joint_turn single_turn asked_seat
  turn m seats policies =
      if ltb 1 (length seats)
      then joint_turn m seats policies
      else single_turn m (asked_seat m seats) policies

  unfoldable pub apply_policy_turn : LocalMatch T → SeatMap (Policy T) → Result (LocalMatch T)
  unfolding turn
  apply_policy_turn m policies = do
    seats ← acting_seats rules m.rules_engine m.state
    turn m seats policies

  -- The rounds that follow a turn, unless it raised.
  unfoldable pub go_on :
      (LocalMatch T → Option (Result (LocalMatch T)))
      → Result (LocalMatch T)
      → Option (Result (LocalMatch T))
  go_on rest (err e) = some (err e)
  go_on rest (ok m) = rest m

  -- The `while` loop with a number of rounds; `none` where it would go on. The other outcome is what
  -- the call returns or raises.
  unfoldable pub run_local_match :
      ℕ → LocalMatch T → SeatMap (Policy T) → Option (Result (LocalMatch T))
  unfolding apply_policy_turn go_on
  run_local_match zero m policies =
      if rules.is_terminal m.rules_engine m.state then some (ok m) else none
  run_local_match (suc rounds) m policies =
      let rest = go_on (λ m'. run_local_match rounds m' policies) (apply_policy_turn m policies) in
      if rules.is_terminal m.rules_engine m.state then some (ok m) else rest
