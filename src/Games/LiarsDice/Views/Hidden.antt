-- ===== src/Games/LiarsDice/Views/Hidden.antt =====
-- The hands that stay hidden in Liar's Dice, src/arena/games/liarsdice, and the contract of its
-- rules engine.
use agents_arena.Prelude.{
  ℕ, ◌≡◌, refl, Option, some, List, [], ◌∷◌, arith, if◌then◌else◌, ◌==◌, Bool-cases, inl, inr,
  length,
}
use agents_arena.Core.Errors.{Error, ok, err}
use agents_arena.Core.Engine.{Given, given, TransitionResult}
use agents_arena.Core.Contract.{Lawful, Sequential}
use agents_arena.Games.LiarsDice.State.{LiarsDiceState, LiarsDiceAction, Hands}
use agents_arena.Games.LiarsDice.Valid.{IsValid}
use agents_arena.Games.LiarsDice.Rules.{
  LiarsDiceEvent, legal_actions, is_chance_node, is_terminal, result, visible_to, roll_events,
  apply_chance, apply_action, validate_action,
}
use agents_arena.Games.LiarsDice.Rules.Legal.{liars_dice_legal_actions-iff_valid}
use agents_arena.Games.LiarsDice.Rules.Rolls.{apply_chance-eq_ok}
use agents_arena.Games.LiarsDice.Rules.Moves.{liars_dice_apply_action-IsValid}
use agents_arena.Games.LiarsDice.Serializer.{
  public_fields, roll_pending, dump_state_for_seat, dump_public_state, dump_chance_outcome_for_seat,
  dump_public_chance_outcome,
}
use agents_arena.Games.LiarsDice.Views.{observation, public_state, liars_dice_rules}

-- The hands of a seat and of the other one.
abbrev pub hands_for : ℕ → List ℕ → List ℕ → Hands
hands_for seat mine theirs =
    if seat == 0
    then record { hand0 = mine; hand1 = theirs }
    else record { hand0 = theirs; hand1 = mine }

-- A round in which a seat holds one hand and the other seat another.
abbrev pub holding : LiarsDiceState → ℕ → List ℕ → List ℕ → LiarsDiceState
holding s seat mine theirs = record s { dice = some (hands_for seat mine theirs) }

-- Two rounds that differ only in the hand of the other seat look the same to a seat: it gets the same
-- observation and the same dump of the state, and of the two rolls it is sent the same dice.
pub other_hand_hidden :
    (s : LiarsDiceState) (seat : ℕ) (mine theirs theirs' : List ℕ)
    → (observation (holding s seat mine theirs) seat
        ≡ observation (holding s seat mine theirs') seat)
      × (dump_state_for_seat (holding s seat mine theirs) seat
          ≡ dump_state_for_seat (holding s seat mine theirs') seat)
      × (dump_chance_outcome_for_seat (record { dice = hands_for seat mine theirs }) seat
          ≡ dump_chance_outcome_for_seat (record { dice = hands_for seat mine theirs' }) seat)
unfolding observation dump_state_for_seat dump_chance_outcome_for_seat legal_actions public_fields
    roll_pending is_chance_node is_terminal result
other_hand_hidden s seat mine theirs theirs' = elim (Bool-cases (seat == 0)) [
  | inl first ↦ (rw first refl, rw first refl, rw first refl)
  | inr second ↦ (rw second refl, rw second refl, rw second refl)
]

-- Two rounds that differ in their hands look the same to the public, also in the dump, and so do two
-- rolls with as many dice in each hand.
pub hands_hidden_from_public :
    (s : LiarsDiceState) (dice dice' : Hands)
    → length dice.hand0 ≡ length dice'.hand0
    → length dice.hand1 ≡ length dice'.hand1
    → (public_state (record s { dice = some dice }) ≡ public_state (record s { dice = some dice' }))
      × (dump_public_state (record s { dice = some dice })
          ≡ dump_public_state (record s { dice = some dice' }))
      × (dump_public_chance_outcome (record { dice = dice })
          ≡ dump_public_chance_outcome (record { dice = dice' }))
unfolding public_state dump_public_state dump_public_chance_outcome public_fields roll_pending
    is_chance_node is_terminal result
hands_hidden_from_public s dice dice' l0 l1 = (refl, refl, rw (l0, l1) refl)

-- The events that a viewer may see.
abbrev pub visible_events : Option ℕ → List LiarsDiceEvent → List LiarsDiceEvent
visible_events viewer [] = []
visible_events viewer (e ∷ events) =
    let rest = visible_events viewer events in if visible_to e viewer then e ∷ rest else rest

events_hidden :
    (s : LiarsDiceState) (seat : ℕ) (mine theirs theirs' : List ℕ)
    → visible_events (some seat) (roll_events s (hands_for seat mine theirs))
      ≡ visible_events (some seat) (roll_events s (hands_for seat mine theirs'))
unfolding visible_to
events_hidden s seat mine theirs theirs' = ground arith

-- Of two rolls that differ only in the hand of the other seat, a seat sees the same events.
pub roll_events_hidden :
    (s : LiarsDiceState) (seat : ℕ) (mine theirs theirs' : List ℕ)
    (t t' : TransitionResult LiarsDiceState LiarsDiceEvent)
    → apply_chance s (given (record { dice = hands_for seat mine theirs })) ≡ ok t
    → apply_chance s (given (record { dice = hands_for seat mine theirs' })) ≡ ok t'
    → visible_events (some seat) t.events ≡ visible_events (some seat) t'.events
roll_events_hidden s seat mine theirs theirs' t t' h h' =
    let (p, a, b, state, events) =
      apply_chance-eq_ok s (record { dice = hands_for seat mine theirs }) t h in
    let (p', a', b', state', events') =
      apply_chance-eq_ok s (record { dice = hands_for seat mine theirs' }) t' h' in
    rw (events, events') (events_hidden s seat mine theirs theirs')

apply_action-invalid :
    (s : LiarsDiceState) (seat : ℕ) (a : Given LiarsDiceAction) (e : Error)
    → validate_action s seat a ≡ err e
    → apply_action s seat a ≡ err e
unfolding apply_action
apply_action-invalid s seat a e h = rw h refl

-- Liar's Dice keeps the contract of the rules engines on every state that its constructor accepts.
pub liars_dice_rules-Lawful :
    (block : ℕ → ℕ → ℕ) (rounds : ℕ) (Json : Type 0)
    → Lawful (liars_dice_rules block rounds Json) IsValid
unfolding is_terminal
liars_dice_rules-Lawful block rounds Json = record {
  terminal-result = λ engine s. ground arith;
  legal-validate = λ engine s seat a v. liars_dice_legal_actions-iff_valid s seat a;
}

pub liars_dice_rules-Sequential :
    (block : ℕ → ℕ → ℕ) (rounds : ℕ) (Json : Type 0)
    → Sequential (liars_dice_rules block rounds Json) IsValid
liars_dice_rules-Sequential block rounds Json = record {
  apply-valid = λ engine. liars_dice_apply_action-IsValid;
  apply-invalid = λ engine. apply_action-invalid;
}
