-- ===== src/Games/LiarsDice/Rules/Moves.antt =====
-- A seat's decision in Liar's Dice, src/arena/games/liarsdice/rules.py: what a valid bid and a valid
-- call lead to.
use agents_arena.Prelude.{
  ℕ, ◌≤◌, ◌≡◌, ◌≢◌, refl, true, false, Option, none, some, List, [], ◌∷◌, ◌++◌, arith,
}
use agents_arena.Core.Errors.{ok}
use agents_arena.Core.Engine.{Given, given, foreign, TransitionResult}
use agents_arena.Games.LiarsDice.State.{
  LiarsDiceState, LiarsDiceAction, bid_move, call_move, Hands, Bid, hand_fits, showdown_fits,
  revealed_fits, bids_rise, raises, standing_from, standing_bid, max_dice_per_seat, is_none,
  is_seat, make_showdown,
}
use agents_arena.Games.LiarsDice.Rules.{
  LiarsDiceEvent, bid_made, validate_action, check_move, is_terminal, is_chance_node, result,
  other_seat, apply_action, apply_move, called, shown_by, reveal, called_turn,
}
use agents_arena.Games.LiarsDice.Valid.{IsValid, Dealt, Shown, make_state-valid}

-- A bid on top of a rising history.
bids_rise-append :
    (total faces : ℕ) (previous : Option Bid) (bids : List Bid) (b : Bid)
    → bids_rise total faces previous bids ≡ true
    → b.quantity ≤ total
    → b.face ≤ faces
    → raises (standing_from previous bids) b ≡ true
    → bids_rise total faces previous (bids ++ b ∷ []) ≡ true
unfolding bids_rise standing_from
bids_rise-append total faces previous [] b rise q f r = rw r ground arith
bids_rise-append total faces previous (c ∷ bids) b rise q f r =
    ground (arith, bids_rise-append total faces (some c) bids b)

pub foreign_refused : (s : LiarsDiceState) (seat : ℕ) → validate_action s seat foreign ≢ ok tt
unfolding validate_action
foreign_refused s seat h = ground arith

-- What a move that passed validation says of the state: both seats have dice, and the hands of this
-- round are dealt.
pub validated :
    (s : LiarsDiceState) (seat : ℕ) (a : Given LiarsDiceAction)
    → validate_action s seat a ≡ ok tt
    → (1 ≤ s.count0) × (1 ≤ s.count1) × (s.current_seat ≡ seat) × (is_none s.dice ≡ false)
unfolding validate_action is_terminal is_chance_node result
validated s seat a h = ground arith

bid-IsValid :
    (s : LiarsDiceState) (seat : ℕ) (b : Bid) (dice : Option Hands)
    → s.dice ≡ dice
    → is_none dice ≡ false
    → IsValid s
    → validate_action s seat (given (bid_move b)) ≡ ok tt
    → Dealt s dice
    → IsValid (record s { bids = s.bids ++ b ∷ []; current_seat = other_seat seat })
unfolding validate_action check_move Dealt other_seat
bid-IsValid s seat b none d n v h deal = cc
bid-IsValid s seat b (some dice) d n v h deal = record {
  faces = v.faces;
  seat = ground arith;
  counts = v.counts;
  dice_left = v.dice_left;
  winner0 = ground arith;
  winner1 = ground arith;
  dealt = rw d deal;
  shown = v.shown;
  rise = bids_rise-append _ _ none s.bids b v.rise (ground arith) (ground arith) (ground arith);
}

-- The standing bid is one of the dice in play and of this game's faces.
pub standing_fits :
    (total faces : ℕ) (previous : Option Bid) (bids : List Bid) (b : Bid)
    → bids_rise total faces previous bids ≡ true
    → standing_from previous bids ≡ some b
    → (previous ≡ some b → (b.quantity ≤ total) × (b.face ≤ faces))
    → (b.quantity ≤ total) × (b.face ≤ faces)
unfolding bids_rise standing_from
standing_fits total faces previous [] b rise st base = base st
standing_fits total faces previous (c ∷ bids) b rise st base =
    standing_fits total faces (some c) bids b (ground arith) st λ same. ground arith

-- The hands of a round can be revealed.
revealed-hand_fits :
    (faces count : ℕ) (hand : List ℕ)
    → 1 ≤ count
    → count ≤ max_dice_per_seat
    → hand_fits faces count hand ≡ true
    → revealed_fits faces hand ≡ true
unfolding hand_fits revealed_fits
revealed-hand_fits faces count hand l u h = ground arith

showdown-eq_ok :
    (seat : ℕ) (b : Bid) (dice : Hands)
    → is_seat seat ≡ true
    → make_showdown (shown_by seat b dice) ≡ ok (shown_by seat b dice)
unfolding make_showdown other_seat
showdown-eq_ok seat b dice h = ground arith

call-IsValid :
    (s : LiarsDiceState) (seat : ℕ) (b : Bid) (dice : Hands)
    → IsValid s
    → Dealt s (some dice)
    → s.current_seat ≡ seat
    → standing_bid s ≡ some b
    → IsValid (called s seat b dice)
unfolding Dealt Shown other_seat showdown_fits bids_rise
call-IsValid s seat b dice v deal c st =
    let fits = standing_fits _ _ none s.bids b v.rise st λ h. cc in
    let hands : (revealed_fits s.faces dice.hand0 ≡ true)
        × (revealed_fits s.faces dice.hand1 ≡ true) =
      (
        revealed-hand_fits s.faces s.count0 dice.hand0 deal.1 v.counts.0 deal.3,
        revealed-hand_fits s.faces s.count1 dice.hand1 deal.2 v.counts.1 deal.4,
      ) in
    record {
      faces = v.faces;
      seat = ground arith;
      counts = ground (arith, v.counts);
      dice_left = ground (arith, v.counts);
      winner0 = ground arith;
      winner1 = ground arith;
      dealt = refl;
      shown = (deal.0, ground (arith, fits, hands));
      rise = refl;
    }

-- The outcome of a valid move, as the theorem below states it.
abbrev Leads : LiarsDiceState → ℕ → Given LiarsDiceAction → Type 0
Leads s seat a =
    (t : TransitionResult LiarsDiceState LiarsDiceEvent) × (apply_action s seat a ≡ ok t)
    × IsValid t.state
    × (t.result ≡ result t.state)

reveal-Leads :
    (s : LiarsDiceState) (seat : ℕ) (standing : Option Bid) (dice : Option Hands)
    → IsValid s
    → validate_action s seat (given call_move) ≡ ok tt
    → is_none s.dice ≡ false
    → s.current_seat ≡ seat
    → Dealt s dice
    → standing_bid s ≡ standing
    → s.dice ≡ dice
    → Leads s seat (given call_move)
unfolding apply_action apply_move reveal validate_action check_move
reveal-Leads s seat none dice v h n c deal st d = ground arith
reveal-Leads s seat (some b) none v h n c deal st d = ground arith
reveal-Leads s seat (some b) (some dice) v h n c deal st d =
    let v' = call-IsValid s seat b dice v deal c st in
    (
      called_turn s seat b dice (called s seat b dice),
      rw (h, st, d, showdown-eq_ok seat b dice (ground arith), make_state-valid _ v') refl,
      v',
      refl,
    )

-- A valid move is applied, to a state that the constructor accepts, and the result it reports is the
-- result of that state.
pub liars_dice_apply_action-IsValid :
    (s : LiarsDiceState) (seat : ℕ) (a : Given LiarsDiceAction)
    → IsValid s
    → validate_action s seat a ≡ ok tt
    → (t : TransitionResult LiarsDiceState LiarsDiceEvent) × (apply_action s seat a ≡ ok t)
      × IsValid t.state
      × (t.result ≡ result t.state)
unfolding apply_action apply_move
liars_dice_apply_action-IsValid s seat foreign v h = absurd (foreign_refused s seat h)
liars_dice_apply_action-IsValid s seat (given call_move) v h =
    let (c0, c1, c, n) = validated s seat (given call_move) h in
    reveal-Leads s seat (standing_bid s) s.dice v h n c v.dealt refl refl
liars_dice_apply_action-IsValid s seat (given (bid_move b)) v h =
    let (c0, c1, c, n) = validated s seat (given (bid_move b)) h in
    let v' = bid-IsValid s seat b s.dice refl n v h v.dealt in
    (
      record {
        state = record s { bids = s.bids ++ b ∷ []; current_seat = other_seat seat };
        events = bid_made seat b.quantity b.face ∷ [];
        result = none;
      },
      rw (h, make_state-valid _ v') refl,
      v',
      unfold result in ground arith,
    )
