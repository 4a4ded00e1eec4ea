-- ===== src/Games/LiarsDice/Rules/Length.antt =====
-- The length of a match of Liar's Dice, src/arena/games/liarsdice/rules.py.
use mathlib.Core.Path.{subst}
use agents_arena.Prelude.{
  ℕ, ◌+◌, ◌-◌, ◌*◌, ◌≤◌, ◌<◌, ◌≡◌, refl, sym, ap, ◌∙◌, ◌⊎◌, true, Option, none, some, List, [], ◌∷◌,
  ◌++◌, arith,
}
use agents_arena.Core.Errors.{ok, >>=-eq-ok}
use agents_arena.Core.Engine.{Given, given, foreign, TransitionResult}
use agents_arena.Games.LiarsDice.State.{
  LiarsDiceState, LiarsDiceAction, bid_move, call_move, Bid, outranks, raises, standing_from,
  standing_bid, total_dice, make_state, make_showdown, Hands,
}
use agents_arena.Games.LiarsDice.Rules.{
  LiarsDiceEvent, validate_action, check_move, apply_action, apply_move, reveal, other_seat,
  shown_by, called, called_turn,
}
use agents_arena.Games.LiarsDice.Valid.{IsValid, make_state-same}
use agents_arena.Games.LiarsDice.Rules.Moves.{
  validated, foreign_refused, liars_dice_apply_action-IsValid, standing_fits,
}

-- The place of a standing bid in the order of the bids, with nine faces to a quantity.
abbrev rank_of : Bid → ℕ
rank_of b = b.quantity * 9 + b.face

abbrev rank : Option Bid → ℕ
rank none = 0
rank (some b) = rank_of b

abbrev rank_limit : ℕ
rank_limit = 117

-- More than the actions that are left: for every die in play all the bids and a call.
abbrev pub actions_left : LiarsDiceState → ℕ
actions_left s = total_dice s * 118 + (rank_limit - rank (standing_bid s))

standing_from-append :
    (previous : Option Bid) (bids : List Bid) (b : Bid)
    → standing_from previous (bids ++ b ∷ []) ≡ some b
unfolding standing_from
standing_from-append previous [] b = refl
standing_from-append previous (c ∷ bids) b = standing_from-append (some c) bids b

-- A raise has a higher place, within the limit.
rank-raises :
    (s : LiarsDiceState) (b : Bid) (standing : Option Bid)
    → IsValid s
    → standing_bid s ≡ standing
    → raises standing b ≡ true
    → 1 ≤ b.face
    → b.face ≤ s.faces
    → b.quantity ≤ total_dice s
    → (rank standing < rank_of b) × (rank_of b ≤ rank_limit)
unfolding raises outranks
rank-raises s b none v st r one f q = ground (arith, v.faces, v.counts)
rank-raises s b (some c) v st r one f q =
    ground (arith, v.faces, v.counts, standing_fits _ _ none s.bids c v.rise st λ h. cc)

-- A call costs one die and clears the bids.
reveal_total :
    (s : LiarsDiceState) (seat : ℕ) (standing : Option Bid) (dice : Option Hands)
    (t : TransitionResult LiarsDiceState LiarsDiceEvent)
    → 1 ≤ s.count0
    → 1 ≤ s.count1
    → (seat ≡ 0) ⊎ (seat ≡ 1)
    → reveal s seat standing dice ≡ ok t
    → (total_dice t.state + 1 ≡ total_dice s) × (t.state.bids ≡ [])
unfolding reveal other_seat
reveal_total s seat none dice t c0 c1 o h = cc
reveal_total s seat (some b) none t c0 c1 o h = cc
reveal_total s seat (some b) (some dice) t c0 c1 o h =
    let (showdown, shown, more) = >>=-eq-ok (make_showdown (shown_by seat b dice)) _ h in
    let (next, made, done) = >>=-eq-ok (make_state (called s seat b dice)) _ more in
    let got : called_turn s seat b dice next ≡ t = cc done in
    let same : t.state ≡ called s seat b dice =
      sym (ap (λ r. r.state) got) ∙ make_state-same (called s seat b dice) made in
    (rw (ap total_dice same) ground arith, ap (λ r. r.bids) same)

move-left :
    (s : LiarsDiceState) (seat : ℕ) (a : Given LiarsDiceAction)
    (t : TransitionResult LiarsDiceState LiarsDiceEvent)
    → IsValid s
    → validate_action s seat a ≡ ok tt
    → apply_move s seat a ≡ ok t
    → actions_left t.state < actions_left s
unfolding apply_move validate_action check_move
move-left s seat foreign t v valid rest = absurd (foreign_refused s seat valid)
move-left s seat (given call_move) t v valid rest =
    let (c0, c1, c, n) = validated s seat (given call_move) valid in
    let (fewer, cleared) =
      reveal_total s seat (standing_bid s) s.dice t c0 c1 (ground arith) rest in
    rw (ap (standing_from none) cleared) omega (arith, fewer)
move-left s seat (given (bid_move b)) t v valid rest =
    let next : LiarsDiceState = record s {
      bids = s.bids ++ b ∷ [];
      current_seat = other_seat seat;
    } in
    let (made, accepted, done) = >>=-eq-ok (make_state next) _ rest in
    let same : t.state ≡ next = cc (make_state-same next accepted, done) in
    let (above, below) =
      rank-raises s b (standing_bid s) v refl (ground arith) (ground arith) (ground arith)
        (ground arith) in
    rw (same, standing_from-append none s.bids b) omega (arith, above, below)

-- Every action uses up one of those that are left, and a roll none.
pub apply_action-left :
    (s : LiarsDiceState) (seat : ℕ) (a : Given LiarsDiceAction)
    (t : TransitionResult LiarsDiceState LiarsDiceEvent)
    → IsValid s
    → apply_action s seat a ≡ ok t
    → IsValid t.state × (actions_left t.state < actions_left s)
unfolding apply_action
apply_action-left s seat a t v h =
    let (u, valid, rest) = >>=-eq-ok (validate_action s seat a) _ h in
    let (t', applied, v', reported) = liars_dice_apply_action-IsValid s seat a v valid in
    let same : t' ≡ t = cc (applied, h) in
    (
      subst (λ (t : TransitionResult LiarsDiceState LiarsDiceEvent). IsValid t.state) same v',
      move-left s seat a t v valid rest,
    )
