-- ===== src/Core/PublicView.antt =====
-- Views of a state, a configuration or a chance outcome for one viewer, and the check of a hidden-
-- information game: src/arena/core/public_view.py. A viewer is a seat, or `none` for the public.
pub mod Hooks
use agents_arena.Prelude.{ℕ, not, ◌&&◌, ◌||◌, Option, none, some, ◌==◌}
use agents_arena.Core.Errors.{
  Result, ok, err, ◌>>◌, raise_if, value_error, attribute_error, incomplete_public_view,
}
use agents_arena.Core.Engine.{GameTypes, RulesEngine, Serializer, GameDefinition}
use agents_arena.Core.Nodes.{has_hook}

abbrev pub Viewer : Type 0
Viewer = Option ℕ

unfoldable pub check_viewer : Viewer → Result (Unit {0})
check_viewer none = ok tt
check_viewer (some seat) = raise_if (not (seat == 0 || seat == 1)) value_error

unfoldable pub public_state :
    {T : GameTypes} → RulesEngine T → T.Engine → T.State → Result T.Observation
public_state rules engine state = elim rules.public_state_hook [
  | none ↦ rules.observation engine state 0
  | some hook ↦ hook engine state
]

module _ {T : GameTypes} (serializer : Serializer T) where
  unfoldable pub dump_public_state : T.State → Result T.Json
  dump_public_state state = elim serializer.dump_public_state_hook [
    | none ↦ serializer.dump_state state
    | some hook ↦ hook state
  ]

  unfoldable pub load_public_state : T.Json → Result T.State
  load_public_state payload = elim serializer.load_public_state_hook [
    | none ↦ serializer.load_state payload
    | some hook ↦ hook payload
  ]

  unfoldable pub dump_state_for_seat : T.State → ℕ → Result T.Json
  unfolding check_viewer
  dump_state_for_seat state seat = do
    check_viewer (some seat)
    elim serializer.dump_state_for_seat_hook [
      | none ↦ serializer.dump_state state
      | some hook ↦ hook state seat
    ]

  unfoldable pub dump_state_for_viewer : T.State → Viewer → Result T.Json
  unfolding dump_public_state dump_state_for_seat
  dump_state_for_viewer state none = dump_public_state state
  dump_state_for_viewer state (some seat) = do
    check_viewer (some seat)
    dump_state_for_seat state seat

  unfoldable pub dump_config_for_seat : T.Config → ℕ → Result T.Json
  unfolding check_viewer
  dump_config_for_seat config seat = do
    check_viewer (some seat)
    elim serializer.dump_config_for_seat_hook [
      | none ↦ serializer.dump_config config
      | some hook ↦ hook config seat
    ]

  unfoldable pub dump_public_config : T.Config → Result T.Json
  dump_public_config config = elim serializer.dump_public_config_hook [
    | none ↦ serializer.dump_config config
    | some hook ↦ hook config
  ]

  unfoldable pub dump_config_for_viewer : T.Config → Viewer → Result T.Json
  unfolding dump_public_config dump_config_for_seat
  dump_config_for_viewer config none = dump_public_config config
  dump_config_for_viewer config (some seat) = do
    check_viewer (some seat)
    dump_config_for_seat config seat

  dump_outcome_whole : T.Outcome → Result T.Json
  dump_outcome_whole outcome = elim serializer.dump_chance_outcome_hook [
    | none ↦ err attribute_error
    | some hook ↦ hook outcome
  ]

  unfoldable pub dump_chance_outcome_for_viewer : T.Outcome → Viewer → Result T.Json
  unfolding check_viewer dump_outcome_whole
  dump_chance_outcome_for_viewer outcome none = elim serializer.dump_public_chance_outcome_hook [
    | none ↦ dump_outcome_whole outcome
    | some hook ↦ hook outcome
  ]
  dump_chance_outcome_for_viewer outcome (some seat) = do
    check_viewer (some seat)
    elim serializer.dump_chance_outcome_for_seat_hook [
      | none ↦ dump_outcome_whole outcome
      | some hook ↦ hook outcome seat
    ]

-- A definition with hidden information has every hook that redacts it.
unfoldable pub validate_public_view : {T : GameTypes} → GameDefinition T → Result (Unit {0})
validate_public_view definition =
    raise_if
      (definition.has_hidden_information
        && not (
            has_hook rules_engine.public_state_hook
            && has_hook serializer.dump_public_state_hook
            && has_hook serializer.load_public_state_hook
            && has_hook serializer.dump_state_for_seat_hook
            && (not has_chance_nodes
                || (has_hook serializer.dump_chance_outcome_for_seat_hook
                    && has_hook serializer.dump_public_chance_outcome_hook))))
      incomplete_public_view
  where
    open definition use {rules_engine, serializer, has_chance_nodes}
