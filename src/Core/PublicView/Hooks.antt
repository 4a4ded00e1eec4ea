-- ===== src/Core/PublicView/Hooks.antt =====
-- The dumps of a hidden-information game for a viewer, src/arena/core/public_view.py: which of them the
-- game's own hooks answer. A hook is a function of the game, and may itself call dump_state.
use agents_arena.Prelude.{
  ℕ, ◌<◌, ◌≡◌, ◌⊎◌, inl, inr, Bool-cases, true, false, Option, none, some, arith, refl, ◌&&◌, not,
  ◌||◌,
}
use agents_arena.Core.Errors.{Result, ok}
use agents_arena.Core.Engine.{GameTypes, Serializer, GameDefinition}
use agents_arena.Core.Nodes.{has_hook}
use agents_arena.Core.PublicView.{
  check_viewer, dump_public_state, dump_state_for_seat, dump_state_for_viewer,
  dump_chance_outcome_for_viewer, validate_public_view,
}

-- The public's dump and a seat's dump of a state are those of two hooks of the game.
unfoldable pub StateByHooks : {T : GameTypes} → Serializer T → T.State → ℕ → Type 0
StateByHooks {T} serializer state seat =
    (public : T.State → Result T.Json) × (for_seat : T.State → ℕ → Result T.Json)
    × (serializer.dump_public_state_hook ≡ some public)
    × (serializer.dump_state_for_seat_hook ≡ some for_seat)
    × (dump_state_for_viewer serializer state none ≡ public state)
    × (dump_state_for_viewer serializer state (some seat) ≡ for_seat state seat)

-- The same for an outcome.
unfoldable pub OutcomeByHooks : {T : GameTypes} → Serializer T → T.Outcome → ℕ → Type 0
OutcomeByHooks {T} serializer outcome seat =
    (public : T.Outcome → Result T.Json) × (for_seat : T.Outcome → ℕ → Result T.Json)
    × (serializer.dump_public_chance_outcome_hook ≡ some public)
    × (serializer.dump_chance_outcome_for_seat_hook ≡ some for_seat)
    × (dump_chance_outcome_for_viewer serializer outcome none ≡ public outcome)
    × (dump_chance_outcome_for_viewer serializer outcome (some seat) ≡ for_seat outcome seat)

has_hook-some {ℓ} :
    {A : Type ℓ} (hook : Option A) → has_hook hook ≡ true → (h : A) × (hook ≡ some h)
has_hook-some none there = cc
has_hook-some (some h) there = (h, refl)

check_viewer-seat : (seat : ℕ) → seat < 2 → check_viewer (some seat) ≡ ok tt
unfolding check_viewer
check_viewer-seat seat small = ground arith

module _ {T : GameTypes} (definition : GameDefinition T) where
  open definition use {serializer}

  -- The hooks that the check demands.
  validate_public_view_hooks :
      definition.has_hidden_information ≡ true
      → validate_public_view definition ≡ ok tt
      → (has_hook serializer.dump_public_state_hook ≡ true)
        × (has_hook serializer.dump_state_for_seat_hook ≡ true)
        × ((not definition.has_chance_nodes
              || (has_hook serializer.dump_chance_outcome_for_seat_hook
                  && has_hook serializer.dump_public_chance_outcome_hook))
            ≡ true)
  unfolding validate_public_view
  validate_public_view_hooks hidden valid = ground arith

  state_by_hooks :
      (state : T.State) (seat : ℕ)
      → seat < 2
      → has_hook serializer.dump_public_state_hook ≡ true
      → has_hook serializer.dump_state_for_seat_hook ≡ true
      → StateByHooks serializer state seat
  unfolding StateByHooks dump_state_for_viewer dump_public_state dump_state_for_seat
  state_by_hooks state seat small p s =
      let (public, found) = has_hook-some serializer.dump_public_state_hook p in
      let (for_seat, there) = has_hook-some serializer.dump_state_for_seat_hook s in
      (public, for_seat, found, there, rw found refl, rw (check_viewer-seat seat small, there) refl)

  outcome_by_hooks :
      (outcome : T.Outcome) (seat : ℕ)
      → seat < 2
      → has_hook serializer.dump_public_chance_outcome_hook ≡ true
      → has_hook serializer.dump_chance_outcome_for_seat_hook ≡ true
      → OutcomeByHooks serializer outcome seat
  unfolding OutcomeByHooks dump_chance_outcome_for_viewer
  outcome_by_hooks outcome seat small p s =
      let (public, found) = has_hook-some serializer.dump_public_chance_outcome_hook p in
      let (for_seat, there) = has_hook-some serializer.dump_chance_outcome_for_seat_hook s in
      (public, for_seat, found, there, rw found refl, rw (check_viewer-seat seat small, there) refl)

  -- With hidden information, a definition that passes the check has the dumps of a state for the public
  -- and for each seat from hooks of its own, in place of the dump that other games fall back on; and so
  -- the dumps of an outcome, if it has chance nodes.
  pub validate_public_view-by_hooks :
      (state : T.State) (outcome : T.Outcome) (seat : ℕ)
      → seat < 2
      → definition.has_hidden_information ≡ true
      → validate_public_view definition ≡ ok tt
      → StateByHooks serializer state seat
        × ((definition.has_chance_nodes ≡ false) ⊎ OutcomeByHooks serializer outcome seat)
  validate_public_view-by_hooks state outcome seat small hidden valid =
      let (public, for_seat, outcomes) = validate_public_view_hooks hidden valid in
      (
        state_by_hooks state seat small public for_seat,
        elim (Bool-cases definition.has_chance_nodes) [
          | inl chance ↦ inr (outcome_by_hooks outcome seat small (ground arith) (ground arith))
          | inr none_drawn ↦ inl none_drawn
        ],
      )
