-- ===== src/Games/Nim/Legal.antt =====
-- The legal actions of Nim, src/arena/games/nim, and their validation.
use native.Mathlib.Decide.{ℕ_discrete}
use mathlib.Core.Path.{subst}
use native.Mathlib.Nat.{sub-zero}
use agents_arena.Prelude.{
  ℕ, zero, suc, ◌+◌, ◌-◌, ◌≤◌, ◌<◌, ◌≡◌, ◌↔◌, inl, inr, false, some, List, [], ◌∷◌, sym, arith,
  get_elem?, In, In-append, In-append_left, In-append_right, ◌==◌, not, ◌||◌, In-if, Option-cases,
  length-get_elem?,
}
use agents_arena.Core.Errors.{ok}
use agents_arena.Core.Engine.{Given, given, foreign}
use agents_arena.Games.Nim.{
  NimConfig, NimState, TakeObjects, takes, pile_actions, is_terminal, legal_actions, check_take,
  validate_action,
}

-- The takes from one pile are those of its index with a count in the range.
takes-In :
    (a : TakeObjects) (pile k left : ℕ)
    → In (given a) (takes pile k left)
    → (a.pile_index ≡ pile) × (k ≤ a.count) × (a.count < k + left)
unfolding takes
takes-In a pile k zero h = elim h [ ]
takes-In a pile k (suc left) (inl e) = ground arith
takes-In a pile k (suc left) (inr h) = ground (arith, takes-In a pile (k + 1) left h)

In-takes :
    (a : TakeObjects) (k left : ℕ)
    → k ≤ a.count
    → a.count < k + left
    → In (given a) (takes a.pile_index k left)
unfolding takes
In-takes a k zero l u = absurd (omega arith)
In-takes a k (suc left) l u = elim (ℕ_discrete k a.count) [
  | yes here ↦ inl (rw here)
  | no later ↦ inr (In-takes a (k + 1) left (omega arith) (omega arith))
]

pub index_below : (p i : ℕ) → i + 1 ≤ p → p - i ≡ suc (p - (i + 1))
index_below p i h = omega arith

-- The actions on the piles from index `i` on.
pile_actions-In :
    (a : TakeObjects) (i : ℕ) (sizes : List ℕ)
    → In (given a) (pile_actions i sizes)
    → (size : ℕ) × (i ≤ a.pile_index)
      × (get_elem? sizes (a.pile_index - i) ≡ some size)
      × (1 ≤ a.count)
      × (a.count ≤ size)
unfolding pile_actions
pile_actions-In a i [] h = elim h [ ]
pile_actions-In a i (size ∷ sizes) h =
    elim (In-append (given a) (takes i 1 size) (pile_actions (i + 1) sizes) h) [
      | inl here ↦
          let (same, l, u) = takes-In a i 1 size here in
          (size, omega arith, ground arith, l, omega arith)
      | inr there ↦
          let (found, l, at_pile, one, fits) = pile_actions-In a (i + 1) sizes there in
          (found, omega arith, rw (index_below a.pile_index i l) at_pile, one, fits)
    ]

In-pile_actions :
    (a : TakeObjects) (i : ℕ) (sizes : List ℕ) (size : ℕ)
    → i ≤ a.pile_index
    → get_elem? sizes (a.pile_index - i) ≡ some size
    → 1 ≤ a.count
    → a.count ≤ size
    → In (given a) (pile_actions i sizes)
unfolding pile_actions
In-pile_actions a i [] size l at_pile one fits = cc
In-pile_actions a i (s ∷ sizes) size l at_pile one fits = elim (ℕ_discrete i a.pile_index) [
  | yes here ↦
      In-append_left (given a) (takes i 1 s) (pile_actions (i + 1) sizes)
        (rw here (In-takes a 1 s one (ground arith)))
  | no later ↦ In-append_right (given a) (takes i 1 s) (pile_actions (i + 1) sizes) (
      In-pile_actions a (i + 1) sizes size (omega arith)
        (rw (index_below a.pile_index i (omega arith)) at at_pile) one fits)
]

no_foreign_take : (pile k left : ℕ) → ¬ In foreign (takes pile k left)
unfolding takes
no_foreign_take pile k zero h = elim h [ ]
no_foreign_take pile k (suc left) (inl e) = cc
no_foreign_take pile k (suc left) (inr h) = no_foreign_take pile (k + 1) left h

no_foreign_pile : (i : ℕ) (sizes : List ℕ) → ¬ In foreign (pile_actions i sizes)
unfolding pile_actions
no_foreign_pile i [] h = elim h [ ]
no_foreign_pile i (size ∷ sizes) h =
    elim (In-append foreign (takes i 1 size) (pile_actions (i + 1) sizes) h) [
      | inl here ↦ no_foreign_take i 1 size here
      | inr there ↦ no_foreign_pile (i + 1) sizes there
    ]

module _ (engine : NimConfig) (s : NimState) (seat : ℕ) where
  pub check_take-eq_ok :
      (a : TakeObjects)
      → check_take s (given a) ≡ ok tt
      → (size : ℕ) × (get_elem? s.piles a.pile_index ≡ some size) × (1 ≤ a.count) × (a.count ≤ size)
  unfolding check_take
  check_take-eq_ok a h = elim (Option-cases (get_elem? s.piles a.pile_index)) [
    | inl out ↦ ground arith
    | inr (size, found) ↦ (size, found, ground arith, ground arith)
  ]

  eq_ok-check_take :
      (a : TakeObjects) (size : ℕ)
      → get_elem? s.piles a.pile_index ≡ some size
      → 1 ≤ a.count
      → a.count ≤ size
      → check_take s (given a) ≡ ok tt
  unfolding check_take
  eq_ok-check_take a size found one fits =
      ground (arith, length-get_elem? s.piles a.pile_index found)

  pub validate_action-eq_ok :
      (a : Given TakeObjects)
      → validate_action engine s seat a ≡ ok tt
      → ((is_terminal engine s || not (seat == s.current_seat)) ≡ false) × (check_take s a ≡ ok tt)
  unfolding validate_action
  validate_action-eq_ok a h = ground arith

  legal→valid :
      (a : Given TakeObjects)
      → In a (legal_actions engine s seat)
      → validate_action engine s seat a ≡ ok tt
  unfolding legal_actions validate_action
  legal→valid foreign h = absurd (
      no_foreign_pile 0 s.piles
        (In-if foreign (is_terminal engine s || not (seat == s.current_seat)) _ h).1)
  legal→valid (given a) h =
      let (open_turn, inside) =
        In-if (given a) (is_terminal engine s || not (seat == s.current_seat)) _ h in
      let (size, l, found, one, fits) = pile_actions-In a 0 s.piles inside in
      ground (
        arith,
        eq_ok-check_take a size
            (subst (λ i. get_elem? s.piles i ≡ some size) (sub-zero a.pile_index) found) one fits,
      )

  valid→legal :
      (a : Given TakeObjects)
      → validate_action engine s seat a ≡ ok tt
      → In a (legal_actions engine s seat)
  unfolding legal_actions validate_action
  valid→legal foreign h = ground arith
  valid→legal (given a) h =
      let (closed, fits) = validate_action-eq_ok (given a) h in
      let (size, found, one, le) = check_take-eq_ok a fits in
      rw closed (
        In-pile_actions a 0 s.piles size (omega arith)
          (subst (λ i. get_elem? s.piles i ≡ some size) (sym (sub-zero a.pile_index)) found) one le)

  -- The legal actions of a state, for a seat, are exactly the actions that pass validation.
  pub nim_legal_actions-iff_valid :
      (a : Given TakeObjects)
      → In a (legal_actions engine s seat) ↔ (validate_action engine s seat a ≡ ok tt)
  nim_legal_actions-iff_valid a = (legal→valid a, valid→legal a)
