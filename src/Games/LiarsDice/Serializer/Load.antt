-- ===== src/Games/LiarsDice/Serializer/Load.antt =====
-- Loading a dumped state of Liar's Dice, src/arena/games/liarsdice/serializer.py.
use agents_arena.Prelude.{◌≡◌, refl, true, Option, none, some, List, [], ◌∷◌, arith, all}
use agents_arena.Core.Errors.{ok}
use agents_arena.Games.LiarsDice.State.{
  LiarsDiceState, Bid, Hands, Showdown, make_bid, make_showdown, is_seat,
}
use agents_arena.Games.LiarsDice.Valid.{IsValid, make_state-valid}
use agents_arena.Games.LiarsDice.Serializer.{
  StatePayload, positive, check_showdown, check_public, check_dice, check_state, dump_showdown,
  public_fields, dice_lists, dump_state, two_of, load_bids, load_showdown, load_dice, load_state,
}

-- The objects that a state holds went through their constructors.
unfoldable pub AreMade : List Bid → Option Showdown → Type 0
AreMade bids none = all positive bids ≡ true
AreMade bids (some showdown) =
    (all positive bids ≡ true)
    × (positive showdown.bid ≡ true)
    × (make_showdown showdown ≡ ok showdown)

make_bid-positive : (b : Bid) → positive b ≡ true → make_bid b.quantity b.face ≡ ok b
unfolding make_bid
make_bid-positive b h = ground arith

load_bids-positive : (bids : List Bid) → all positive bids ≡ true → load_bids bids ≡ ok bids
unfolding load_bids
load_bids-positive [] h = refl
load_bids-positive (b ∷ bids) h =
    let here : positive b ≡ true = ground arith in
    let later : all positive bids ≡ true = ground arith in
    rw (make_bid-positive b here, load_bids-positive bids later) refl

load_dice-dice_lists : (dice : Option Hands) → load_dice (dice_lists dice) ≡ ok dice
unfolding load_dice dice_lists two_of
load_dice-dice_lists none = refl
load_dice-dice_lists (some dice) = refl

made_seats :
    (showdown : Showdown)
    → make_showdown showdown ≡ ok showdown
    → (is_seat showdown.caller ≡ true) × (is_seat showdown.loser ≡ true)
unfolding make_showdown
made_seats showdown h = ground arith

all-positive :
    (bids : List Bid) (showdown : Option Showdown)
    → AreMade bids showdown
    → all positive bids ≡ true
unfolding AreMade
all-positive bids none m = m
all-positive bids (some showdown) m = m.0

load_showdown-dump_showdown :
    (bids : List Bid) (showdown : Option Showdown)
    → AreMade bids showdown
    → (load_showdown (dump_showdown showdown) ≡ ok showdown)
      × (check_showdown (dump_showdown showdown) ≡ ok tt)
unfolding load_showdown dump_showdown two_of AreMade check_showdown
load_showdown-dump_showdown bids none m = (refl, refl)
load_showdown-dump_showdown bids (some showdown) m =
    let (caller, loser) = made_seats showdown m.2 in
    (rw (make_bid-positive showdown.bid m.1, m.2) refl, rw (caller, loser, m.1) refl)

check_dice-dice_lists : (dice : Option Hands) → check_dice (dice_lists dice) ≡ ok tt
unfolding check_dice dice_lists
check_dice-dice_lists none = refl
check_dice-dice_lists (some dice) = refl

-- The bounds that the payload declares hold.
dump_accepted :
    (s : LiarsDiceState)
    → IsValid s
    → AreMade s.bids s.last_showdown
    → check_state (record { public = public_fields s; dice = dice_lists s.dice }) ≡ ok tt
unfolding check_state check_public public_fields
dump_accepted s v m =
    let (shown, checked) = load_showdown-dump_showdown s.bids s.last_showdown m in
    rw (all-positive s.bids s.last_showdown m, checked, check_dice-dice_lists s.dice) ground
      (arith, v.faces, v.seat)

-- A state that the constructor accepts, whose bids and whose showdown went through their
-- constructors, is dumped, and loading the dump gives the state again.
pub load_state-dump_state :
    (s : LiarsDiceState)
    → IsValid s
    → AreMade s.bids s.last_showdown
    → (payload : StatePayload) × (dump_state s ≡ ok payload) × (load_state payload ≡ ok s)
unfolding dump_state load_state check_state check_public public_fields
load_state-dump_state s v m =
    let (shown, checked) = load_showdown-dump_showdown s.bids s.last_showdown m in
    let bids = all-positive s.bids s.last_showdown m in
    (
      record { public = public_fields s; dice = dice_lists s.dice },
      rw (dump_accepted s v m) refl,
      rw
          (
            dump_accepted s v m,
            load_dice-dice_lists s.dice,
            load_bids-positive s.bids bids,
            shown,
            make_state-valid s v,
          )
          refl,
    )
