-- ===== src/Games/LiarsDice/Rules/Ends.antt =====
-- The end of a match of Liar's Dice, src/arena/games/liarsdice/rules.py: its moves and its rolls,
-- one after the other.
use mathlib.Core.Path.{subst}
use agents_arena.Prelude.{
  ℕ, ◌+◌, ◌*◌, ◌≤◌, ◌<◌, ◌≡◌, refl, sym, ap, inl, inr, true, false, Option, none, some, List, [],
  ◌∷◌, arith, Option-cases, In, length, if◌then◌else◌,
}
use agents_arena.Core.Errors.{Result, ok, ◌>>=◌, >>=-eq-ok}
use agents_arena.Core.Engine.{Given, given, foreign, TransitionResult}
use agents_arena.Games.LiarsDice.State.{
  LiarsDiceConfig, LiarsDiceState, LiarsDiceAction, bid_move, call_move, Bid, raises, standing_from,
  standing_bid, make_state, Hands, Roll, total_dice,
}
use agents_arena.Games.LiarsDice.Rules.{
  LiarsDiceEvent, initial_state, dealt_out, validate_action, check_move, legal_actions,
  apply_action, apply_chance, is_chance_node, is_terminal,
}
use agents_arena.Games.LiarsDice.Valid.{IsValid, Dealt, make_state-same, make_state-IsValid}
use agents_arena.Games.LiarsDice.Rules.Length.{actions_left, apply_action-left}
use agents_arena.Games.LiarsDice.Rules.Legal.{liars_dice_legal_actions-iff_valid}
use agents_arena.Games.LiarsDice.Rules.Rolls.{rolled, rolled-IsValid, apply_chance-eq_ok}

-- The moves of a match: a seat's action, or a roll.
pub data MatchMove : Type 0 where
  acts : (seat : ℕ) → Given LiarsDiceAction → MatchMove
  rolls : Given Roll → MatchMove

unfoldable pub apply_move :
    LiarsDiceState → MatchMove → Result (TransitionResult LiarsDiceState LiarsDiceEvent)
apply_move s (acts seat a) = apply_action s seat a
apply_move s (rolls outcome) = apply_chance s outcome

-- A match from a state on.
unfoldable pub run : LiarsDiceState → List MatchMove → Result LiarsDiceState
unfolding apply_move
run s [] = ok s
run s (m ∷ moves) = do t ← apply_move s m; run t.state moves

-- Two for every action that is left, and a roll that is pending.
abbrev moves_left : LiarsDiceState → ℕ
moves_left s = 2 * actions_left s + (if is_chance_node s then 1 else 0)

-- No bid stands while a roll is pending.
no_bids :
    (s : LiarsDiceState) (dice : Option Hands)
    → s.dice ≡ dice
    → is_chance_node s ≡ true
    → Dealt s dice
    → s.bids ≡ []
unfolding Dealt is_chance_node
no_bids s none d c deal = deal
no_bids s (some dice) d c deal = cc

apply_chance_landed :
    (s : LiarsDiceState) (outcome : Given Roll) (t : TransitionResult LiarsDiceState LiarsDiceEvent)
    → IsValid s
    → apply_chance s outcome ≡ ok t
    → (dice : Hands) × (t.state ≡ rolled s dice) × (is_chance_node s ≡ true) × IsValid t.state
unfolding apply_chance
apply_chance_landed s foreign t v h = ground arith
apply_chance_landed s (given outcome) t v h =
    let (pending, fits0, fits1, same, dealt) = apply_chance-eq_ok s outcome t h in
    (
      outcome.dice,
      same,
      pending,
      subst IsValid (sym same) (rolled-IsValid s outcome.dice v pending fits0 fits1),
    )

roll-left :
    (s : LiarsDiceState) (dice : Hands)
    → IsValid s
    → is_chance_node s ≡ true
    → moves_left (rolled s dice) < moves_left s
unfolding is_chance_node
roll-left s dice v c =
    let cleared = no_bids s s.dice refl c v.dealt in
    rw (c, ap (standing_from none) cleared) unfold standing_from in omega arith

-- Every move leads to an accepted state with fewer moves left.
apply_move-left :
    (s : LiarsDiceState) (m : MatchMove) (t : TransitionResult LiarsDiceState LiarsDiceEvent)
    → IsValid s
    → apply_move s m ≡ ok t
    → IsValid t.state × (moves_left t.state < moves_left s)
unfolding apply_move
apply_move-left s (acts seat a) t v h =
    let (v', less) = apply_action-left s seat a t v h in (v', ground (arith, less))
apply_move-left s (rolls outcome) t v h =
    let (dice, same, pending, v') = apply_chance_landed s outcome t v h in
    (v', subst (λ r. moves_left r < moves_left s) (sym same) (roll-left s dice v pending))

run-left :
    (s s' : LiarsDiceState) (moves : List MatchMove)
    → IsValid s
    → run s moves ≡ ok s'
    → moves_left s' + length moves ≤ moves_left s
unfolding run
run-left s s' [] v h = ground arith
run-left s s' (m ∷ moves) v h =
    let (t, moved, rest) = >>=-eq-ok (apply_move s m) (λ t. run t.state moves) h in
    let (v', less) = apply_move-left s m t v moved in
    omega (arith, run-left t.state s' moves v' rest)

-- What the initial state of a configuration is.
opening :
    (config : LiarsDiceConfig) (s : LiarsDiceState)
    → initial_state tt config ≡ ok (tt, s)
    → IsValid s × (s.bids ≡ []) × (total_dice s ≡ 2 * config.dice_per_seat)
unfolding initial_state
opening config s h =
    let (s', made, done) = >>=-eq-ok (make_state (dealt_out config)) _ h in
    let same : s' ≡ dealt_out config = make_state-same (dealt_out config) made in
    let is : s ≡ dealt_out config = cc (same, done) in
    (
      subst IsValid (sym is) (make_state-IsValid (dealt_out config) (cc (same, made))),
      ap (λ r. r.bids) is,
      rw (ap total_dice is) omega arith,
    )

-- Actions and rolls that are applied one after the other from the initial state of a configuration are
-- fewer than 472 * dice_per_seat + 236.
pub liars_dice_run-bounded :
    (config : LiarsDiceConfig) (s₀ s : LiarsDiceState) (moves : List MatchMove)
    → initial_state tt config ≡ ok (tt, s₀)
    → run s₀ moves ≡ ok s
    → length moves < 472 * config.dice_per_seat + 236
liars_dice_run-bounded config s₀ s moves h played =
    let (v, empty, total) = opening config s₀ h in ground (arith, run-left s₀ s moves v played)

abbrev one_one : Bid
one_one = record { quantity = 1; face = 1 }

-- Where a match is not over and no roll is pending, the seat to move has a legal action.
pub liars_dice_can_move :
    (s : LiarsDiceState)
    → IsValid s
    → is_terminal s ≡ false
    → is_chance_node s ≡ false
    → (a : Given LiarsDiceAction) × In a (legal_actions s s.current_seat)
unfolding validate_action check_move raises
liars_dice_can_move s v over pending = elim (Option-cases (standing_bid s)) [
  | inl opens ↦ (
    given (bid_move one_one),
    (liars_dice_legal_actions-iff_valid s s.current_seat (given (bid_move one_one))).1
        (ground (arith, v.faces, v.dice_left)),
  )
  | inr (b, stands) ↦ (
    given call_move,
    (liars_dice_legal_actions-iff_valid s s.current_seat (given call_move)).1 (ground arith),
  )
]
