-- ===== src/Core/Nodes.antt =====
-- The chance hooks of src/arena/core/chance.py: detecting, sampling and applying chance nodes, and
-- the check of a definition's chance declaration.
use agents_arena.Prelude.{Bool, true, false, not, ◌&&◌, Option, none, some, if◌then◌else◌}
use agents_arena.Core.Errors.{Result, ok, err, ◌>>=◌, raise_if, incomplete_chance_support}
use agents_arena.Core.Chance.{ChanceRng}
use agents_arena.Core.Engine.{GameTypes, TransitionResult, RulesEngine, Serializer, GameDefinition}

-- `_has_hook`.
abbrev pub has_hook {ℓ} : {A : Type ℓ} → Option A → Bool
has_hook none = false
has_hook (some h) = true

-- `_require_hook`, with the hook that it found.
abbrev pub require_hook {ℓ} : {A : Type ℓ} → Option A → Result A
require_hook none = err incomplete_chance_support
require_hook (some h) = ok h

module _ {T : GameTypes} (rules : RulesEngine T) where
  unfoldable pub rules_engine_declares_chance : Bool
  rules_engine_declares_chance =
      has_hook rules.is_chance_node_hook
      && has_hook rules.sample_chance_hook
      && has_hook rules.apply_chance_hook

  -- False for a game without chance hooks.
  unfoldable pub is_chance_node : T.Engine → T.State → Bool
  is_chance_node engine state = elim rules.is_chance_node_hook [
    | none ↦ false
    | some hook ↦ hook engine state
  ]

  unfoldable pub sample_chance : T.Engine → T.State → ChanceRng → Result (T.Outcome × ChanceRng)
  sample_chance engine state rng = do
    hook ← require_hook rules.sample_chance_hook
    hook engine state rng

  unfoldable pub apply_chance :
      T.Engine → T.State → T.Outcome → Result (TransitionResult T.State T.Event)
  apply_chance engine state outcome = do
    hook ← require_hook rules.apply_chance_hook
    hook engine state outcome

module _ {T : GameTypes} (serializer : Serializer T) where
  unfoldable pub dump_chance_outcome : T.Outcome → Result T.Json
  dump_chance_outcome outcome = do
    hook ← require_hook serializer.dump_chance_outcome_hook
    hook outcome

  unfoldable pub load_chance_outcome : T.Json → Result T.Outcome
  load_chance_outcome payload = do
    hook ← require_hook serializer.load_chance_outcome_hook
    hook payload

-- A game that declares chance nodes has every hook; a game that does not has no `is_chance_node`.
unfoldable pub validate_chance_support : {T : GameTypes} → GameDefinition T → Result (Unit {0})
unfolding rules_engine_declares_chance
validate_chance_support definition =
    if not definition.has_chance_nodes
    then raise_if (has_hook rules_engine.is_chance_node_hook) incomplete_chance_support
    else raise_if
        (not (
          rules_engine_declares_chance rules_engine
          && has_hook serializer.dump_chance_outcome_hook
          && has_hook serializer.load_chance_outcome_hook))
        incomplete_chance_support
  where
    open definition use {rules_engine, serializer}
