-- ===== src/Core/Simultaneous.antt =====
-- Joint turns, src/arena/core/simultaneous.py: the seats that act in a state, and the resolution of
-- a round from one action of each.
pub mod Joint
use agents_arena.Prelude.{
  ℕ, Bool, true, false, not, ◌&&◌, ◌||◌, Option, none, some, List, [], ◌∷◌, map, length, any, ltb,
  ◌==◌, list_eq, sorted, sorted_set, if◌then◌else◌,
}
use agents_arena.Core.Errors.{
  Result, ok, err, ◌>>=◌, ◌>>◌, raise_if, wrong_player, game_finished, key_error, attribute_error,
  incomplete_simultaneous_support,
}
use agents_arena.Core.Engine.{GameTypes, TransitionResult, SeatMap, RulesEngine, GameDefinition}
use agents_arena.Core.Nodes.{has_hook, is_chance_node}

-- `seat not in _SEATS`: the arena has two seats.
abbrev pub not_a_seat : ℕ → Bool
not_a_seat seat = not (seat == 0 || seat == 1)

abbrev pub is_empty {ℓ} : {A : Type ℓ} → List A → Bool
is_empty [] = true
is_empty (x ∷ xs) = false

-- `mapping[seat]`.
abbrev pub get_seat : {A : Type 0} → ℕ → SeatMap A → Result A
get_seat seat [] = err key_error
get_seat seat ((key, value) ∷ rest) =
    let later = get_seat seat rest in if seat == key then ok value else later

abbrev pub keys : {A : Type 0} → SeatMap A → List ℕ
keys = map (λ entry. entry.0)

-- `{seat: actions[seat] for seat in seats}`.
unfoldable pub pick : {A : Type 0} → List ℕ → SeatMap A → Result (SeatMap A)
pick [] actions = ok []
pick (seat ∷ seats) actions = do
  action ← get_seat seat actions
  rest ← pick seats actions
  ok ((seat, action) ∷ rest)

-- The check of what an `acting_seats` hook returned.
unfoldable pub check_seats : List ℕ → Result (List ℕ)
check_seats seats =
    if is_empty seats || any not_a_seat seats || not (list_eq seats (sorted_set seats))
    then err wrong_player
    else ok seats

module _ {T : GameTypes} (rules : RulesEngine T) where
  unfoldable pub rules_engine_declares_simultaneous : Bool
  rules_engine_declares_simultaneous =
      has_hook rules.acting_seats_hook && has_hook rules.apply_joint_action_hook

  unfoldable pub acting_seats : T.Engine → T.State → Result (List ℕ)
  unfolding is_chance_node
  acting_seats engine state =
      if rules.is_terminal engine state || is_chance_node rules engine state
      then ok []
      else elim rules.acting_seats_hook [
        | none ↦ ok (rules.current_seat engine state ∷ [])
        | some hook ↦ check_seats (hook engine state)
      ]

  unfoldable pub is_joint_node : T.Engine → T.State → Result Bool
  unfolding acting_seats
  is_joint_node engine state = do seats ← acting_seats engine state; ok (ltb 1 (length seats))

  -- The loop that validates each seat's action, in the order of the seats.
  validate_each : T.Engine → T.State → List ℕ → SeatMap T.Action → Result (Unit {0})
  validate_each engine state [] actions = ok tt
  validate_each engine state (seat ∷ seats) actions = do
    action ← get_seat seat actions
    rules.validate_action engine state seat action
    validate_each engine state seats actions

  call_joint : T.Engine → T.State → SeatMap T.Action → Result (TransitionResult T.State T.Event)
  call_joint engine state ordered = elim rules.apply_joint_action_hook [
    | none ↦ err attribute_error
    | some hook ↦ hook engine state ordered
  ]

  -- What follows once the acting seats are known.
  resolve_joint :
      T.Engine → T.State → List ℕ → SeatMap T.Action → Result (TransitionResult T.State T.Event)
  unfolding validate_each pick call_joint
  resolve_joint engine state seats actions = do
    raise_if (ltb (length seats) 2) wrong_player
    raise_if (not (list_eq (sorted (keys actions)) seats)) wrong_player
    validate_each engine state seats actions
    ordered ← pick seats actions
    call_joint engine state ordered

  unfoldable pub apply_joint_action :
      T.Engine → T.State → SeatMap T.Action → Result (TransitionResult T.State T.Event)
  unfolding acting_seats resolve_joint
  apply_joint_action engine state actions = do
    raise_if (rules.is_terminal engine state) game_finished
    seats ← acting_seats engine state
    resolve_joint engine state seats actions

-- The flag and the two hooks agree.
unfoldable pub validate_simultaneous_support :
    {T : GameTypes} → GameDefinition T → Result (Unit {0})
unfolding rules_engine_declares_simultaneous
validate_simultaneous_support definition =
    let declared = definition.has_simultaneous_moves in
    let implemented = rules_engine_declares_simultaneous definition.rules_engine in
    do
      raise_if (declared && not implemented) incomplete_simultaneous_support
      raise_if (implemented && not declared) incomplete_simultaneous_support
