-- ===== src/Games/LiarsDice/Rules/Legal.antt =====
-- The legal actions of Liar's Dice, src/arena/games/liarsdice/rules.py: the two nested loops over
-- the quantities and the faces, against the checks of `validate_action`.
use native.Mathlib.Decide.{ℕ_discrete}
use agents_arena.Prelude.{
  ℕ, zero, suc, ◌+◌, ◌≤◌, ◌<◌, ◌≡◌, refl, ◌↔◌, ◌⊎◌, inl, inr, Bool-cases, true, false, List, Bool,
  Option, none, some, ◌++◌, arith, In, In-append, In-append_left, In-append_right, In-if, not, ◌||◌,
  ◌==◌,
}
use agents_arena.Core.Errors.{ok}
use agents_arena.Core.Engine.{Given, given, foreign}
use agents_arena.Games.LiarsDice.State.{
  LiarsDiceState, LiarsDiceAction, bid_move, call_move, Bid, raises, standing_bid, total_dice,
  is_none,
}
use agents_arena.Games.LiarsDice.Rules.{
  validate_action, check_move, is_terminal, is_chance_node, legal_actions, bids_of, bids_from,
  calls,
}

-- A bid that the loop keeps if it raises the standing one.
abbrev bid_at : ℕ → ℕ → Bid
bid_at quantity face = record { quantity = quantity; face = face }

offered :
    (standing : Option Bid) (quantity face left : ℕ) (a : Given LiarsDiceAction)
    → In a (bids_of standing quantity face (suc left))
    → ((raises standing (bid_at quantity face) ≡ true)
        × (a ≡ given (bid_move (bid_at quantity face))))
      ⊎ In a (bids_of standing quantity (face + 1) left)
unfolding bids_of
offered standing quantity face left a h =
    elim (Bool-cases (raises standing (bid_at quantity face))) [
      | inl kept ↦ elim (rw kept at h) [ inl e ↦ inl (kept, e) | inr more ↦ inr more ]
      | inr dropped ↦ inr (rw dropped at h)
    ]

offered_later :
    (standing : Option Bid) (quantity face left : ℕ) (a : Given LiarsDiceAction)
    → In a (bids_of standing quantity (face + 1) left)
    → In a (bids_of standing quantity face (suc left))
unfolding bids_of
offered_later standing quantity face left a h =
    elim (Bool-cases (raises standing (bid_at quantity face))) [
      | inl kept ↦ rw kept (inr h)
      | inr dropped ↦ rw dropped h
    ]

-- The bids of one quantity are those of the faces in the range that raise the standing bid.
bids_of-In :
    (standing : Option Bid) (b : Bid) (quantity face left : ℕ)
    → In (given (bid_move b)) (bids_of standing quantity face left)
    → (b.quantity ≡ quantity)
      × (face ≤ b.face)
      × (b.face < face + left)
      × (raises standing b ≡ true)
unfolding bids_of
bids_of-In standing b quantity face zero h = elim h [ ]
bids_of-In standing b quantity face (suc left) h =
    elim (offered standing quantity face left (given (bid_move b)) h) [
      | inl (r, e) ↦ ground arith
      | inr more ↦ ground (arith, bids_of-In standing b quantity (face + 1) left more)
    ]

In-bids_of :
    (standing : Option Bid) (b : Bid) (face left : ℕ)
    → face ≤ b.face
    → b.face < face + left
    → raises standing b ≡ true
    → In (given (bid_move b)) (bids_of standing b.quantity face left)
unfolding bids_of
In-bids_of standing b face zero l u r = absurd (omega arith)
In-bids_of standing b face (suc left) l u r = elim (ℕ_discrete face b.face) [
  | yes here ↦ rw (here, r) (inl refl)
  | no later ↦
      offered_later standing b.quantity face left _
        (In-bids_of standing b (face + 1) left (omega arith) (omega arith) r)
]

-- All the bids on offer, from `quantity` on.
bids_from-In :
    (standing : Option Bid) (b : Bid) (faces quantity left : ℕ)
    → In (given (bid_move b)) (bids_from standing faces quantity left)
    → (quantity ≤ b.quantity)
      × (b.quantity < quantity + left)
      × (1 ≤ b.face)
      × (b.face ≤ faces)
      × (raises standing b ≡ true)
unfolding bids_from
bids_from-In standing b faces quantity zero h = elim h [ ]
bids_from-In standing b faces quantity (suc left) h =
    elim (In-append _ (bids_of standing quantity 1 faces)
      (bids_from standing faces (quantity + 1) left) h) [
        | inl here ↦ ground (arith, bids_of-In standing b quantity 1 faces here)
        | inr there ↦ ground (arith, bids_from-In standing b faces (quantity + 1) left there)
      ]

In-bids_from :
    (standing : Option Bid) (b : Bid) (faces quantity left : ℕ)
    → quantity ≤ b.quantity
    → b.quantity < quantity + left
    → 1 ≤ b.face
    → b.face ≤ faces
    → raises standing b ≡ true
    → In (given (bid_move b)) (bids_from standing faces quantity left)
unfolding bids_from
In-bids_from standing b faces quantity zero l u one f r = absurd (omega arith)
In-bids_from standing b faces quantity (suc left) l u one f r =
    elim (ℕ_discrete quantity b.quantity) [
      | yes here ↦
          In-append_left _ (bids_of standing quantity 1 faces) _
            (rw here (In-bids_of standing b 1 faces one (omega arith) r))
      | no later ↦
          In-append_right _ (bids_of standing quantity 1 faces) _
            (In-bids_from standing b faces (quantity + 1) left (omega arith) (omega arith) one f r)
    ]

-- The two loops offer bids only.
only_bids_of :
    (standing : Option Bid) (quantity face left : ℕ) (a : Given LiarsDiceAction)
    → In a (bids_of standing quantity face left)
    → (b : Bid) × (a ≡ given (bid_move b))
unfolding bids_of
only_bids_of standing quantity face zero a h = elim h [ ]
only_bids_of standing quantity face (suc left) a h =
    elim (offered standing quantity face left a h) [
      | inl (r, e) ↦ (bid_at quantity face, e)
      | inr more ↦ only_bids_of standing quantity (face + 1) left a more
    ]

only_bids :
    (standing : Option Bid) (faces quantity left : ℕ) (a : Given LiarsDiceAction)
    → In a (bids_from standing faces quantity left)
    → (b : Bid) × (a ≡ given (bid_move b))
unfolding bids_from
only_bids standing faces quantity zero a h = elim h [ ]
only_bids standing faces quantity (suc left) a h =
    elim (In-append a (bids_of standing quantity 1 faces) _ h) [
      | inl here ↦ only_bids_of standing quantity 1 faces a here
      | inr there ↦ only_bids standing faces (quantity + 1) left a there
    ]

calls-In :
    (standing : Option Bid) (a : Given LiarsDiceAction)
    → In a (calls standing)
    → (a ≡ given call_move) × (is_none standing ≡ false)
unfolding calls
calls-In none a h = elim h [ ]
calls-In (some b) a (inl e) = (e, refl)
calls-In (some b) a (inr h) = elim h [ ]

In-calls :
    (standing : Option Bid) → is_none standing ≡ false → In (given call_move) (calls standing)
unfolding calls
In-calls none h = cc
In-calls (some b) h = inl refl

-- What is on offer, the turn left aside, is what passes the checks of the move.
on_offer : LiarsDiceState → List (Given LiarsDiceAction)
on_offer s = calls (standing_bid s) ++ bids_from (standing_bid s) s.faces 1 (total_dice s)

offer-check_move :
    (s : LiarsDiceState) (a : Given LiarsDiceAction) → In a (on_offer s) → check_move s a ≡ ok tt
unfolding on_offer check_move
offer-check_move s foreign h = elim (In-append foreign (calls (standing_bid s)) _ h) [
  | inl called ↦ absurd (cc ((calls-In (standing_bid s) foreign called).0))
  | inr bids ↦ absurd (cc ((only_bids (standing_bid s) s.faces 1 (total_dice s) foreign bids).1))
]
offer-check_move s (given call_move) h =
    elim (In-append (given call_move) (calls (standing_bid s)) _ h) [
      | inl called ↦ ground (arith, calls-In (standing_bid s) (given call_move) called)
      | inr bids ↦
          absurd
            (cc ((only_bids (standing_bid s) s.faces 1 (total_dice s) (given call_move) bids).1))
    ]
offer-check_move s (given (bid_move b)) h =
    elim (In-append (given (bid_move b)) (calls (standing_bid s)) _ h) [
      | inl called ↦ absurd (cc ((calls-In (standing_bid s) (given (bid_move b)) called).0))
      | inr bids ↦ ground (arith, bids_from-In (standing_bid s) b s.faces 1 (total_dice s) bids)
    ]

check_move-offer :
    (s : LiarsDiceState) (a : Given LiarsDiceAction) → check_move s a ≡ ok tt → In a (on_offer s)
unfolding on_offer check_move
check_move-offer s foreign h = cc
check_move-offer s (given call_move) h =
    In-append_left _ (calls (standing_bid s)) _ (In-calls (standing_bid s) (ground arith))
check_move-offer s (given (bid_move b)) h = In-append_right _ (calls (standing_bid s)) _ (
    In-bids_from (standing_bid s) b s.faces 1 (total_dice s) (ground arith) (ground arith)
      (ground arith) (ground arith) (ground arith))

-- No action is legal while this holds.
abbrev closed : LiarsDiceState → ℕ → Bool
closed s seat = is_terminal s || is_chance_node s || not (seat == s.current_seat)

validate_action-eq_ok :
    (s : LiarsDiceState) (seat : ℕ) (a : Given LiarsDiceAction)
    → validate_action s seat a ≡ ok tt
    → (closed s seat ≡ false) × (check_move s a ≡ ok tt)
unfolding validate_action
validate_action-eq_ok s seat a h = ground arith

legal→valid :
    (s : LiarsDiceState) (seat : ℕ) (a : Given LiarsDiceAction)
    → In a (legal_actions s seat)
    → validate_action s seat a ≡ ok tt
unfolding legal_actions validate_action on_offer
legal→valid s seat a h =
    let (open_turn, inside) = In-if a (closed s seat) (on_offer s) h in
    ground (arith, offer-check_move s a inside)

valid→legal :
    (s : LiarsDiceState) (seat : ℕ) (a : Given LiarsDiceAction)
    → validate_action s seat a ≡ ok tt
    → In a (legal_actions s seat)
unfolding legal_actions on_offer
valid→legal s seat a h =
    let (open_turn, fits) = validate_action-eq_ok s seat a h in
    rw open_turn (check_move-offer s a fits)

-- The legal actions are exactly the actions that pass validation.
pub liars_dice_legal_actions-iff_valid :
    (s : LiarsDiceState) (seat : ℕ) (a : Given LiarsDiceAction)
    → In a (legal_actions s seat) ↔ (validate_action s seat a ≡ ok tt)
liars_dice_legal_actions-iff_valid s seat a = (legal→valid s seat a, valid→legal s seat a)
