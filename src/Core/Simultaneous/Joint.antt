-- ===== src/Core/Simultaneous/Joint.antt =====
-- The acting seats and the joint turns of src/arena/core/simultaneous.py.
use mathlib.Core.Path.{subst}
use agents_arena.Prelude.{
  ℕ, suc, ◌≡◌, ◌≢◌, refl, not, ap, ◌∙◌, ◌⊎◌, inl, inr, true, false, none, List, [], ◌∷◌, arith,
  length, list_eq, list_eq→≡, insert_sorted, sorted, ltb, ◌==◌, ◌≤◌, insert_unique, sorted_set, any,
  Bool-cases, sym, Option-cases,
}
use agents_arena.Core.Errors.{raise_if, game_finished, wrong_player, ok, >>=-eq-ok, raise_if-eq-ok}
use agents_arena.Core.Engine.{GameTypes, TransitionResult, SeatMap, RulesEngine}
use agents_arena.Core.Simultaneous.{
  keys, not_a_seat, pick, check_seats, acting_seats, resolve_joint, apply_joint_action,
}

length-insert_sorted : (x : ℕ) (ys : List ℕ) → length (insert_sorted x ys) ≡ suc (length ys)
length-insert_sorted x [] = refl
length-insert_sorted x (y ∷ ys) = ground (arith, length-insert_sorted x ys)

length-sorted : (xs : List ℕ) → length (sorted xs) ≡ length xs
length-sorted [] = refl
length-sorted (x ∷ xs) = omega (arith, length-insert_sorted x (sorted xs), length-sorted xs)

length-keys : {A : Type 0} (actions : SeatMap A) → length (keys actions) ≡ length actions
length-keys [] = refl
length-keys (x ∷ xs) = omega (arith, length-keys xs)

-- The two orders in which a dictionary can hold one action for each of the two seats.
abbrev pub IsPair : {A : Type 0} → SeatMap A → A → A → Type 0
IsPair actions a b = (actions ≡ (0, a) ∷ (1, b) ∷ []) ⊎ (actions ≡ (1, b) ∷ (0, a) ∷ [])

pub keys-IsPair :
    {A : Type 0} (actions : SeatMap A)
    → list_eq (sorted (keys actions)) (0 ∷ 1 ∷ []) ≡ true
    → (a : A) × (b : A) × IsPair actions a b
keys-IsPair [] h = cc
keys-IsPair ((k, a) ∷ []) h = ground arith
keys-IsPair ((k, a) ∷ (j, b) ∷ []) h = elim (Bool-cases (k == 0)) [
  | inl first ↦ (a, b, ground arith)
  | inr second ↦ (b, a, ground arith)
]
keys-IsPair (x ∷ y ∷ z ∷ rest) h = absurd (
    omega (
      arith,
      ap (length {A = ℕ}) (list_eq→≡ (sorted (keys (x ∷ y ∷ z ∷ rest))) (0 ∷ 1 ∷ []) h),
      length-sorted (keys (x ∷ y ∷ z ∷ rest)),
    ))

-- Each number exceeds the one before it, and the first is at least `lo`.
abbrev IsRising : ℕ → List ℕ → Type 0
IsRising lo [] = Unit
IsRising lo (x ∷ xs) = (lo ≤ x) × IsRising (suc x) xs

insert_unique-IsRising :
    (x : ℕ) (ys : List ℕ) (lo : ℕ) → lo ≤ x → IsRising lo ys → IsRising lo (insert_unique x ys)
insert_unique-IsRising x [] lo h r = (h, tt)
insert_unique-IsRising x (y ∷ ys) lo h r = ground (arith, insert_unique-IsRising x ys (suc y))

sorted_set-IsRising : (xs : List ℕ) → IsRising 0 (sorted_set xs)
sorted_set-IsRising [] = tt
sorted_set-IsRising (x ∷ xs) =
    insert_unique-IsRising x (sorted_set xs) 0 (omega arith) (sorted_set-IsRising xs)

check_seats-eq :
    (seats checked : List ℕ)
    → check_seats seats ≡ ok checked
    → (checked ≡ seats) × (any not_a_seat seats ≡ false) × (list_eq seats (sorted_set seats) ≡ true)
unfolding check_seats
check_seats-eq seats checked h = ground arith

too_many :
    (x y z : ℕ) (rest : List ℕ)
    → any not_a_seat (x ∷ y ∷ z ∷ rest) ≡ false
    → IsRising 0 (x ∷ y ∷ z ∷ rest)
    → ⊥
too_many x y z rest h r = ground arith

-- A hook's seats pass the check only as one seat, or as both in order.
pub check_seats-forms :
    (seats checked : List ℕ)
    → check_seats seats ≡ ok checked
    → (checked ≡ 0 ∷ []) ⊎ (checked ≡ 1 ∷ []) ⊎ (checked ≡ 0 ∷ 1 ∷ [])
unfolding check_seats
check_seats-forms [] checked h = cc
check_seats-forms (x ∷ []) checked h = ground arith
check_seats-forms (x ∷ y ∷ []) checked h = ground arith
check_seats-forms (x ∷ y ∷ z ∷ rest) checked h =
    let (same, seats, rising) = check_seats-eq (x ∷ y ∷ z ∷ rest) checked h in
    absurd (
      too_many x y z rest seats (
        subst (IsRising 0)
          (sym (list_eq→≡ (x ∷ y ∷ z ∷ rest) (sorted_set (x ∷ y ∷ z ∷ rest)) rising))
          (sorted_set-IsRising (x ∷ y ∷ z ∷ rest))))

module _ {T : GameTypes} (rules : RulesEngine T) (engine : T.Engine) (state : T.State) where
  acting_seats-alone :
      {seats : List ℕ}
      → rules.acting_seats_hook ≡ none
      → acting_seats rules engine state ≡ ok seats
      → ltb (length seats) 2 ≡ true
  unfolding acting_seats
  acting_seats-alone without h = ground (arith, without)

  -- A game without the hook of acting seats has no joint turns.
  pub apply_joint_action-unhooked :
      (actions : SeatMap T.Action) {transition : TransitionResult T.State T.Event}
      → rules.acting_seats_hook ≡ none
      → apply_joint_action rules engine state actions ≢ ok transition
  unfolding apply_joint_action resolve_joint
  apply_joint_action-unhooked actions without h =
      let (u, going, h₁) =
        >>=-eq-ok (raise_if (rules.is_terminal engine state) game_finished) _ h in
      let (seats, acting, h₂) = >>=-eq-ok (acting_seats rules engine state) _ h₁ in
      let (v, many, h₃) = >>=-eq-ok (raise_if (ltb (length seats) 2) wrong_player) _ h₂ in
      cc (raise_if-eq-ok _ _ many, acting_seats-alone without acting)

  -- The acting seats are none, the current seat of a game without the hook, or a checked list.
  pub acting_seats-joint :
      (seats : List ℕ)
      → acting_seats rules engine state ≡ ok seats
      → ltb (length seats) 2 ≡ false
      → seats ≡ 0 ∷ 1 ∷ []
  unfolding acting_seats
  acting_seats-joint seats h two = elim (Option-cases rules.acting_seats_hook) [
    | inl without ↦ ground arith
    | inr (hook, found) ↦ ground (arith, check_seats-forms (hook engine state) seats)
  ]

  resolve_joint-swap :
      (seats : List ℕ) (a b : T.Action)
      → resolve_joint rules engine state seats ((1, b) ∷ (0, a) ∷ [])
        ≡ resolve_joint rules engine state seats ((0, a) ∷ (1, b) ∷ [])
  unfolding resolve_joint
  resolve_joint-swap seats a b = elim (Bool-cases (list_eq (0 ∷ 1 ∷ []) seats)) [
    | inl both ↦ rw (← list_eq→≡ (0 ∷ 1 ∷ []) seats both)
    | inr other ↦ rw other
  ]

  -- The order in which the two seats' actions arrived does not matter.
  pub apply_joint_action-swap :
      (a b : T.Action)
      → apply_joint_action rules engine state ((1, b) ∷ (0, a) ∷ [])
        ≡ apply_joint_action rules engine state ((0, a) ∷ (1, b) ∷ [])
  unfolding apply_joint_action
  apply_joint_action-swap a b = simp resolve_joint-swap

  -- A round that is resolved has the two seats acting, and one action from each.
  apply_joint_action-pair :
      (actions : SeatMap T.Action) {transition : TransitionResult T.State T.Event}
      → apply_joint_action rules engine state actions ≡ ok transition
      → (acting_seats rules engine state ≡ ok (0 ∷ 1 ∷ []))
        × (list_eq (sorted (keys actions)) (0 ∷ 1 ∷ []) ≡ true)
  unfolding apply_joint_action resolve_joint
  apply_joint_action-pair actions h =
      let (u, running, h₁) =
        >>=-eq-ok (raise_if (rules.is_terminal engine state) game_finished) _ h in
      let (seats, acting, h₂) = >>=-eq-ok (acting_seats rules engine state) _ h₁ in
      let (v, several, h₃) = >>=-eq-ok (raise_if (ltb (length seats) 2) wrong_player) _ h₂ in
      let (w, exact, h₄) =
        >>=-eq-ok (raise_if (not (list_eq (sorted (keys actions)) seats)) wrong_player) _ h₃ in
      let both = acting_seats-joint seats acting (raise_if-eq-ok _ _ several) in
      (acting ∙ ap ok both, ground (arith, raise_if-eq-ok _ _ exact, both))

  -- The actions that a round records resolve to the same transition, and are recorded again.
  pub apply_joint_action-recorded :
      (actions recorded : SeatMap T.Action) (seats : List ℕ)
      {transition : TransitionResult T.State T.Event}
      → apply_joint_action rules engine state actions ≡ ok transition
      → acting_seats rules engine state ≡ ok seats
      → pick seats actions ≡ ok recorded
      → (a : T.Action) × (b : T.Action) × (recorded ≡ (0, a) ∷ (1, b) ∷ [])
        × (pick seats recorded ≡ ok recorded)
        × (apply_joint_action rules engine state recorded ≡ ok transition)
  unfolding pick
  apply_joint_action-recorded actions recorded seats {transition} h acting picked =
      let (both, exact) = apply_joint_action-pair actions h in
      let (a, b, order) = keys-IsPair actions exact in
      let named : pick (0 ∷ 1 ∷ []) actions ≡ ok ((0, a) ∷ (1, b) ∷ []) = elim order [
        | inl e ↦ rw e
        | inr e ↦ rw e
      ] in
      let same : apply_joint_action rules engine state ((0, a) ∷ (1, b) ∷ []) ≡ ok transition =
        elim order [ inl e ↦ rw (← e) h | inr e ↦ rw (← apply_joint_action-swap a b, ← e) h ] in
      let order_of_seats : seats ≡ 0 ∷ 1 ∷ [] = cc in
      let those : recorded ≡ (0, a) ∷ (1, b) ∷ [] =
        cc (named, ap (λ s. pick s actions) order_of_seats) in
      (a, b, those, rw (order_of_seats, those), rw those same)
