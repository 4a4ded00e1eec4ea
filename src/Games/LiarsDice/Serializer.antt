-- ===== src/Games/LiarsDice/Serializer.antt =====
-- The payloads of Liar's Dice, src/arena/games/liarsdice/serializer.py: the state as a whole, as one
-- seat sees it and as the public does, and a roll. The payload models are records here, and building
-- one checks the bounds that its fields declare.
pub mod Load
use agents_arena.Prelude.{
  ℕ, suc, ◌+◌, Bool, true, false, not, ◌&&◌, ◌||◌, Option, none, some, List, [], ◌∷◌, all, ltb, leb,
  length, ◌==◌, if◌then◌else◌,
}
use agents_arena.Core.Errors.{Result, ok, err, ◌>>=◌, ◌>>◌, raise_if, value_error, index_error}
use agents_arena.Games.LiarsDice.State.{
  Bid, make_bid, Hands, Roll, Showdown, make_showdown, LiarsDiceState, make_state, is_none, is_seat,
}

pub record ShowdownPayload : Type 0 where
  pub caller : ℕ
  pub bid : Bid
  pub dice : List (List ℕ)
  pub count : ℕ
  pub loser : ℕ

pub record PublicFields : Type 0 where
  pub dice_counts : List ℕ
  pub bids : List Bid
  pub current_seat : ℕ
  pub round_number : ℕ
  pub faces : ℕ
  pub last_showdown : Option ShowdownPayload

pub record StatePayload : Type 0 where
  pub public : PublicFields
  pub dice : Option (List (List ℕ))

pub record PublicStatePayload : Type 0 where
  pub public : PublicFields
  pub roll_pending : Bool

pub record SeatStatePayload : Type 0 where
  pub public : PublicFields
  pub roll_pending : Bool
  pub seat : ℕ
  pub my_dice : List ℕ

-- The bounds of a bid's body.
abbrev pub positive : Bid → Bool
positive bid = leb 1 bid.quantity && leb 1 bid.face

abbrev pub are_two {ℓ} : {A : Type ℓ} → List A → Bool
are_two xs = length xs == 2

unfoldable pub check_showdown : Option ShowdownPayload → Result (Unit {0})
check_showdown none = ok tt
check_showdown (some payload) = do
  raise_if (not (is_seat payload.caller)) value_error
  raise_if (not (positive payload.bid)) value_error
  raise_if (not (are_two payload.dice)) value_error
  raise_if (not (is_seat payload.loser)) value_error

unfoldable pub check_public : PublicFields → Result (Unit {0})
unfolding check_showdown
check_public fields = do
  raise_if (not (are_two fields.dice_counts)) value_error
  raise_if (not (all positive fields.bids)) value_error
  raise_if (not (is_seat fields.current_seat)) value_error
  raise_if (not (leb 2 fields.faces && leb fields.faces 9)) value_error
  check_showdown fields.last_showdown

unfoldable pub check_dice : Option (List (List ℕ)) → Result (Unit {0})
check_dice none = ok tt
check_dice (some dice) = raise_if (not (are_two dice)) value_error

-- `LiarsDiceStatePayload.model_validate`.
unfoldable pub check_state : StatePayload → Result (Unit {0})
unfolding check_public check_dice
check_state payload = do check_public payload.public; check_dice payload.dice

abbrev pub hands_list : Hands → List (List ℕ)
hands_list dice = dice.hand0 ∷ dice.hand1 ∷ []

unfoldable pub dump_showdown : Option Showdown → Option ShowdownPayload
dump_showdown none = none
dump_showdown (some showdown) = some (record {
  caller = showdown.caller;
  bid = showdown.bid;
  dice = hands_list showdown.dice;
  count = showdown.count;
  loser = showdown.loser;
})

unfoldable pub public_fields : LiarsDiceState → PublicFields
unfolding dump_showdown
public_fields state = record {
  dice_counts = state.count0 ∷ state.count1 ∷ [];
  bids = state.bids;
  current_seat = state.current_seat;
  round_number = state.round_number;
  faces = state.faces;
  last_showdown = dump_showdown state.last_showdown;
}

-- `s.dice is None and min(s.dice_counts) > 0`.
unfoldable pub roll_pending : LiarsDiceState → Bool
roll_pending state =
    is_none state.dice
    && ltb 0 (if leb state.count0 state.count1 then state.count0 else state.count1)

dice_lists : Option Hands → Option (List (List ℕ))
dice_lists none = none
dice_lists (some dice) = some (hands_list dice)

unfoldable pub dump_state : LiarsDiceState → Result StatePayload
unfolding dice_lists public_fields
dump_state state = do check_state payload; ok payload
  where
    payload : StatePayload
    payload = record { public = public_fields state; dice = dice_lists state.dice }

unfoldable pub dump_public_state : LiarsDiceState → Result PublicStatePayload
dump_public_state state = do
  check_public (public_fields state)
  ok (record { public = public_fields state; roll_pending = roll_pending state })

-- `s.dice[seat]`, or no dice.
abbrev pub hand_of : Option Hands → ℕ → List ℕ
hand_of none seat = []
hand_of (some dice) seat = if seat == 0 then dice.hand0 else dice.hand1

-- For seat 0 and seat 1.
unfoldable pub dump_state_for_seat : LiarsDiceState → ℕ → Result SeatStatePayload
dump_state_for_seat state seat = do
  check_public (public_fields state)
  raise_if (not (is_seat seat)) value_error
  ok (record {
    public = public_fields state;
    roll_pending = roll_pending state;
    seat = seat;
    my_dice = hand_of state.dice seat;
  })

-- The first and the second element, of a list whose length has been checked.
two_of {ℓ} : {A : Type ℓ} → List A → Result (A × A)
two_of [] = err index_error
two_of (x ∷ []) = err index_error
two_of (x ∷ y ∷ rest) = ok (x, y)

load_bids : List Bid → Result (List Bid)
load_bids [] = ok []
load_bids (bid ∷ bids) = do
  loaded ← make_bid bid.quantity bid.face
  rest ← load_bids bids
  ok (loaded ∷ rest)

load_showdown : Option ShowdownPayload → Result (Option Showdown)
unfolding two_of
load_showdown none = ok none
load_showdown (some payload) = do
  bid ← make_bid payload.bid.quantity payload.bid.face
  (hand0, hand1) ← two_of payload.dice
  showdown ← make_showdown (record {
    caller = payload.caller;
    bid = bid;
    dice = record { hand0 = hand0; hand1 = hand1 };
    count = payload.count;
    loser = payload.loser;
  })
  ok (some showdown)

load_dice : Option (List (List ℕ)) → Result (Option Hands)
unfolding two_of
load_dice none = ok none
load_dice (some dice) = do
  (hand0, hand1) ← two_of dice
  ok (some (record { hand0 = hand0; hand1 = hand1 }))

unfoldable pub load_state : StatePayload → Result LiarsDiceState
unfolding load_dice two_of load_bids load_showdown
load_state payload = do
  check_state payload
  dice ← load_dice payload.dice
  (count0, count1) ← two_of payload.public.dice_counts
  bids ← load_bids payload.public.bids
  last_showdown ← load_showdown payload.public.last_showdown
  make_state (record {
    dice = dice;
    count0 = count0;
    count1 = count1;
    bids = bids;
    current_seat = payload.public.current_seat;
    round_number = payload.public.round_number;
    faces = payload.public.faces;
    last_showdown = last_showdown;
  })

-- A roll for one seat, and for the public.
unfoldable pub dump_chance_outcome_for_seat : Roll → ℕ → Result (List ℕ)
dump_chance_outcome_for_seat roll seat = do
  raise_if (not (is_seat seat)) value_error
  ok (if seat == 0 then roll.dice.hand0 else roll.dice.hand1)

unfoldable pub dump_public_chance_outcome : Roll → List ℕ
dump_public_chance_outcome roll = length roll.dice.hand0 ∷ length roll.dice.hand1 ∷ []
