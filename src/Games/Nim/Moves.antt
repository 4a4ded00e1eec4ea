-- ===== src/Games/Nim/Moves.antt =====
-- A move of Nim, src/arena/games/nim.
use native.Mathlib.Decide.{ℕ_discrete}
use mathlib.Core.Path.{subst}
use native.Mathlib.Nat.{sub-zero}
use agents_arena.Prelude.{
  ℕ, suc, ◌+◌, ◌-◌, ◌≤◌, ◌<◌, ◌≡◌, refl, sym, ap, ◌⊎◌, ◌≢◌, inl, inr, none, some, List, [], ◌∷◌,
  arith, get_elem?, length, all, sum, if◌then◌else◌, Bool-cases,
}
use agents_arena.Core.Errors.{Error, ok, err}
use agents_arena.Core.Engine.{Given, given, foreign, win, TransitionResult}
use agents_arena.Core.Contract.{Lawful, Sequential}
use agents_arena.Games.Nim.{
  nim_objects_taken, nim_match_won, NimConfig, NimState, NimEvent, TakeObjects, make_state, is_zero,
  result, is_terminal, other_seat, validate_action, check_take, take_from, move, apply_take,
  apply_action, nim_rules,
}
use agents_arena.Games.Nim.Legal.{
  index_below, nim_legal_actions-iff_valid, validate_action-eq_ok, check_take-eq_ok,
}

-- What the constructor of `NimState` accepts.
pub record IsValid (s : NimState) : Type 0 where
  pub has_piles : 0 < length s.piles
  pub seat : (s.current_seat ≡ 0) ⊎ (s.current_seat ≡ 1)

take_from-beyond :
    (i : ℕ) (a : TakeObjects) (sizes : List ℕ) → a.pile_index < i → take_from i a sizes ≡ sizes
unfolding take_from
take_from-beyond i a [] l = refl
take_from-beyond i a (s ∷ sizes) l = ground (arith, take_from-beyond (i + 1) a sizes (omega arith))

-- A move takes exactly its count out of the piles.
sum-take_from :
    (i : ℕ) (a : TakeObjects) (sizes : List ℕ) (size : ℕ)
    → i ≤ a.pile_index
    → get_elem? sizes (a.pile_index - i) ≡ some size
    → a.count ≤ size
    → sum (take_from i a sizes) + a.count ≡ sum sizes
unfolding take_from
sum-take_from i a [] size l found fits = cc
sum-take_from i a (s ∷ sizes) size l found fits = elim (ℕ_discrete i a.pile_index) [
  | yes here ↦ ground (arith, take_from-beyond (i + 1) a sizes (omega arith))
  | no later ↦ ground (
    arith,
    sum-take_from (i + 1) a sizes size (omega arith)
        (rw (index_below a.pile_index i (omega arith)) at found) fits,
  )
]

length-take_from :
    (i : ℕ) (a : TakeObjects) (sizes : List ℕ) → length (take_from i a sizes) ≡ length sizes
unfolding take_from
length-take_from i a [] = refl
length-take_from i a (s ∷ sizes) = ap suc (length-take_from (i + 1) a sizes)

make_state-ok :
    (piles : List ℕ) (seat : ℕ)
    → 0 < length piles
    → (seat ≡ 0) ⊎ (seat ≡ 1)
    → make_state piles seat ≡ ok (record { piles = piles; current_seat = seat })
unfolding make_state
make_state-ok [] seat p q = elim p [ ]
make_state-ok (pile ∷ piles) seat p q = ground arith

other_seat-seat : (seat : ℕ) → (other_seat seat ≡ 0) ⊎ (other_seat seat ≡ 1)
unfolding other_seat
other_seat-seat seat = ground arith

-- What `move` returns, the piles being the new ones.
pub moved : ℕ → TakeObjects → List ℕ → TransitionResult NimState NimEvent
moved seat a piles =
    let taken = nim_objects_taken seat a.pile_index a.count piles in
    if all is_zero piles
    then record {
      state = record { piles = piles; current_seat = seat };
      events = taken ∷ nim_match_won seat ∷ [];
      result = some (win seat);
    }
    else record {
      state = record { piles = piles; current_seat = other_seat seat };
      events = taken ∷ [];
      result = none;
    }

move-ok :
    (seat : ℕ) (a : TakeObjects) (piles : List ℕ)
    → 0 < length piles
    → (seat ≡ 0) ⊎ (seat ≡ 1)
    → move seat a piles ≡ ok (moved seat a piles)
unfolding move moved
move-ok seat a piles p q = elim (Bool-cases (all is_zero piles)) [
  | inl last ↦ rw (last, make_state-ok piles seat p q)
  | inr more ↦ rw (more, make_state-ok piles (other_seat seat) p (other_seat-seat seat))
]

module _ (engine : NimConfig) (s : NimState) (seat : ℕ) (a : TakeObjects) (v : IsValid s) where
  pub apply_action-moved :
      validate_action engine s seat (given a) ≡ ok tt
      → apply_action engine s seat (given a) ≡ ok (moved seat a (take_from 0 a s.piles))
  unfolding apply_action
  apply_action-moved h =
      let (closed, fits) = validate_action-eq_ok engine s seat (given a) h in
      rw (h, apply_take)
        (move-ok seat a (take_from 0 a s.piles)
          (omega (arith, length-take_from 0 a s.piles, v.has_piles)) (ground (arith, v.seat)))

  pub moved-IsValid : (seat ≡ 0) ⊎ (seat ≡ 1) → IsValid (moved seat a (take_from 0 a s.piles)).state
  unfolding moved
  moved-IsValid q = elim (Bool-cases (all is_zero (take_from 0 a s.piles))) [
    | inl last ↦
        rw last (record {
          has_piles = omega (arith, length-take_from 0 a s.piles, v.has_piles);
          seat = q;
        })
    | inr more ↦ rw more (record {
      has_piles = omega (arith, length-take_from 0 a s.piles, v.has_piles);
      seat = other_seat-seat seat;
    })
  ]

  moved-result :
      (moved seat a (take_from 0 a s.piles)).result
      ≡ result engine (moved seat a (take_from 0 a s.piles)).state
  unfolding moved result
  moved-result = ground arith

module _ (engine : NimConfig) (s : NimState) (seat : ℕ) (a : TakeObjects) (v : IsValid s) where
  -- A valid move takes its count out of the piles.
  pub sum-moved :
      validate_action engine s seat (given a) ≡ ok tt
      → (sum (moved seat a (take_from 0 a s.piles)).state.piles + a.count ≡ sum s.piles)
        × (1 ≤ a.count)
  unfolding moved
  sum-moved h =
      let (closed, fits) = validate_action-eq_ok engine s seat (given a) h in
      let (size, found, one, le) = check_take-eq_ok engine s seat a fits in
      let taken : sum (take_from 0 a s.piles) + a.count ≡ sum s.piles =
        sum-take_from 0 a s.piles size (omega arith)
          (subst (λ i. get_elem? s.piles i ≡ some size) (sym (sub-zero a.pile_index)) found) le in
      (ground arith, one)

pub foreign_refused : (s : NimState) → check_take s foreign ≢ ok tt
unfolding check_take
foreign_refused s h = cc

pub seat_of_turn :
    (engine : NimConfig) (s : NimState) (seat : ℕ) (a : Given TakeObjects)
    → IsValid s
    → validate_action engine s seat a ≡ ok tt
    → (seat ≡ 0) ⊎ (seat ≡ 1)
seat_of_turn engine s seat a v h = ground (arith, validate_action-eq_ok engine s seat a h, v.seat)

-- On a well-formed state, an action that passes validation is applied: the next state is well formed
-- too, and the result that is reported is the result of that state.
pub nim_apply_action-IsValid :
    (engine : NimConfig) (s : NimState) (seat : ℕ) (a : Given TakeObjects)
    → IsValid s
    → validate_action engine s seat a ≡ ok tt
    → (t : TransitionResult NimState NimEvent) × (apply_action engine s seat a ≡ ok t)
      × IsValid t.state
      × (t.result ≡ result engine t.state)
nim_apply_action-IsValid engine s seat foreign v h =
    absurd (foreign_refused s (validate_action-eq_ok engine s seat foreign h).1)
nim_apply_action-IsValid engine s seat (given a) v h = (
  moved seat a (take_from 0 a s.piles),
  apply_action-moved engine s seat a v h,
  moved-IsValid engine s seat a v (seat_of_turn engine s seat (given a) v h),
  moved-result engine s seat a v,
)

apply_action-invalid :
    (engine : NimConfig) (s : NimState) (seat : ℕ) (a : Given TakeObjects) (e : Error)
    → validate_action engine s seat a ≡ err e
    → apply_action engine s seat a ≡ err e
unfolding apply_action
apply_action-invalid engine s seat a e h = rw h

-- Nim keeps the contract of the rules engines on every well-formed state.
pub nim_rules-Lawful : (Json : Type 0) → Lawful (nim_rules Json) IsValid
unfolding is_terminal
nim_rules-Lawful Json = record {
  terminal-result = λ engine s. ground arith;
  legal-validate = λ engine s seat a v. nim_legal_actions-iff_valid engine s seat a;
}

pub nim_rules-Sequential : (Json : Type 0) → Sequential (nim_rules Json) IsValid
nim_rules-Sequential Json = record {
  apply-valid = nim_apply_action-IsValid;
  apply-invalid = apply_action-invalid;
}
