-- ===== src/Games/Pig/Turns.antt =====
-- A seat's decision in Pig, src/arena/games/pig: what is legal, and what it leads to.
use mathlib.Core.Path.{subst}
use agents_arena.Prelude.{
  sym, ap, ◌∙◌, ◌≢◌, Bool-cases, if◌then◌else◌, ℕ, ◌+◌, ◌≤◌, ◌<◌, ◌≡◌, refl, ◌↔◌, ◌⊎◌, inl, inr,
  true, false, [], ◌∷◌, arith, leb, In, none,
}
use agents_arena.Core.Errors.{Error, >>=-eq-ok, ok, err}
use agents_arena.Core.Engine.{Given, given, foreign, TransitionResult}
use agents_arena.Core.Contract.{Lawful, Sequential}
use agents_arena.Games.Pig.{
  with_score, other_seat, score_of, bank, pig_held, pig_match_won, pig_roll_chosen, PigState,
  PigMove, PigEvent, roll, hold, max_target_score, make_state, result, is_terminal, legal_actions,
  validate_action, apply_action, apply_choice, pig_rules,
}

-- What the constructor of `PigState` accepts.
pub record IsValid (s : PigState) : Type 0 where
  pub seat : (s.current_seat ≡ 0) ⊎ (s.current_seat ≡ 1)
  pub target : (1 ≤ s.target_score) × (s.target_score ≤ max_target_score)
  pub one_winner : s.target_score ≤ s.score0 → s.score1 < s.target_score
  pub rests0 :
      s.target_score ≤ s.score0
      → (s.current_seat ≡ 0) × (s.turn_total ≡ 0) × (s.roll_pending ≡ false)
  pub rests1 :
      s.target_score ≤ s.score1
      → (s.current_seat ≡ 1) × (s.turn_total ≡ 0) × (s.roll_pending ≡ false)

pub make_state-eq_ok : (s : PigState) {t : PigState} → make_state s ≡ ok t → IsValid s × (t ≡ s)
unfolding make_state
make_state-eq_ok s h = ground arith

pub make_state-valid : (s : PigState) → IsValid s → make_state s ≡ ok s
unfolding make_state
make_state-valid s v = ground arith

-- The legal choices are exactly the choices that pass validation.
pub pig_legal_actions-iff_valid :
    (s : PigState) (seat : ℕ) (a : Given PigMove)
    → In a (legal_actions s seat) ↔ (validate_action s seat a ≡ ok tt)
unfolding legal_actions validate_action
pig_legal_actions-iff_valid s seat foreign = ground arith
pig_legal_actions-iff_valid s seat (given roll) = ground arith
pig_legal_actions-iff_valid s seat (given hold) = ground arith

foreign_refused : (s : PigState) (seat : ℕ) → validate_action s seat foreign ≢ ok tt
unfolding validate_action
foreign_refused s seat h = ground arith

-- What a choice that passed validation says of the state.
validated :
    (s : PigState) (seat : ℕ) (a : Given PigMove)
    → validate_action s seat a ≡ ok tt
    → (s.score0 < s.target_score)
      × (s.score1 < s.target_score)
      × (s.roll_pending ≡ false)
      × (s.current_seat ≡ seat)
unfolding validate_action
validated s seat foreign h = ground arith
validated s seat (given roll) h = ground arith
validated s seat (given hold) h = ground arith

roll-IsValid :
    (s : PigState)
    → IsValid s
    → s.score0 < s.target_score
    → s.score1 < s.target_score
    → IsValid (record s { roll_pending = true })
roll-IsValid s v a b = record {
  seat = v.seat;
  target = v.target;
  one_winner = λ h. omega arith;
  rests0 = λ h. absurd (omega arith);
  rests1 = λ h. absurd (omega arith);
}

-- The state that holding leads to, before the constructor checks it.
banked : PigState → ℕ → PigState
unfolding with_score other_seat
banked s seat =
    let score = score_of s seat + s.turn_total in
    let next = with_score s seat score in
    if leb s.target_score score then next else record next { current_seat = other_seat seat }

banked-IsValid :
    (s : PigState) (seat : ℕ)
    → IsValid s
    → s.score0 < s.target_score
    → s.score1 < s.target_score
    → s.roll_pending ≡ false
    → s.current_seat ≡ seat
    → IsValid (banked s seat)
unfolding banked
banked-IsValid s seat v a b p c = ground arith

bank-ok :
    (s : PigState) (seat : ℕ)
    → IsValid (banked s seat)
    → (t : TransitionResult PigState PigEvent) × (bank s seat ≡ ok t)
      × (t.state ≡ banked s seat)
      × (t.result ≡ result (banked s seat))
unfolding bank banked
bank-ok s seat v = elim (Bool-cases (leb s.target_score (score_of s seat + s.turn_total))) [
  | inl wins ↦ (
    record {
      state = banked s seat;
      events =
          pig_held seat s.turn_total (score_of s seat + s.turn_total) ∷ pig_match_won seat ∷ [];
      result = result (banked s seat);
    },
    rw (wins, make_state-valid _ (rw wins at v)),
    refl,
    refl,
  )
  | inr goes_on ↦ (
    record {
      state = banked s seat;
      events = pig_held seat s.turn_total (score_of s seat + s.turn_total) ∷ [];
      result = result (banked s seat);
    },
    rw (goes_on, make_state-valid _ (rw goes_on at v)),
    refl,
    refl,
  )
]

-- A valid choice is applied, to a state that the constructor accepts, and the result it reports is
-- the result of that state.
pub pig_apply_action-IsValid :
    (s : PigState) (seat : ℕ) (a : Given PigMove)
    → IsValid s
    → validate_action s seat a ≡ ok tt
    → (t : TransitionResult PigState PigEvent) × (apply_action s seat a ≡ ok t)
      × IsValid t.state
      × (t.result ≡ result t.state)
unfolding apply_action apply_choice
pig_apply_action-IsValid s seat foreign v h = absurd (foreign_refused s seat h)
pig_apply_action-IsValid s seat (given roll) v h =
    let (a, b, p, c) = validated s seat (given roll) h in
    let v' = roll-IsValid s v a b in
    (
      record {
        state = record s { roll_pending = true };
        events = pig_roll_chosen seat ∷ [];
        result = none;
      },
      rw (h, make_state-valid (record s { roll_pending = true }) v'),
      v',
      unfold result in ground arith,
    )
pig_apply_action-IsValid s seat (given hold) v h =
    let (a, b, p, c) = validated s seat (given hold) h in
    let v' = banked-IsValid s seat v a b p c in
    let (t, applied, state, reported) = bank-ok s seat v' in
    (t, rw h applied, subst IsValid (sym state) v', reported ∙ ap result (sym state))

apply_action-invalid :
    (s : PigState) (seat : ℕ) (a : Given PigMove) (e : Error)
    → validate_action s seat a ≡ err e
    → apply_action s seat a ≡ err e
unfolding apply_action
apply_action-invalid s seat a e h = rw h

-- Pig keeps the contract of the rules engines on every state that its constructor accepts.
pub pig_rules-Lawful :
    (block : ℕ → ℕ → ℕ) (rounds : ℕ) (Json : Type 0) → Lawful (pig_rules block rounds Json) IsValid
unfolding is_terminal
pig_rules-Lawful block rounds Json = record {
  terminal-result = λ engine s. ground arith;
  legal-validate = λ engine s seat a v. pig_legal_actions-iff_valid s seat a;
}

pub pig_rules-Sequential :
    (block : ℕ → ℕ → ℕ) (rounds : ℕ) (Json : Type 0)
    → Sequential (pig_rules block rounds Json) IsValid
pig_rules-Sequential block rounds Json = record {
  apply-valid = λ engine. pig_apply_action-IsValid;
  apply-invalid = λ engine. apply_action-invalid;
}

abbrev Keeps : PigState → ℕ → PigState → Type 0
Keeps s seat next =
    (next.score0 + next.score1 + next.turn_total ≡ s.score0 + s.score1 + s.turn_total)
    × (score_of next (other_seat seat) ≡ score_of s (other_seat seat))
    × (next.target_score ≡ s.target_score)

Keeps-banked : (s : PigState) (seat : ℕ) → Keeps s seat (banked s seat)
unfolding banked
Keeps-banked s seat = ground arith

-- A choice loses no points: those of the two scores and of the turn add up to the same, the score
-- of the other seat stays, and so does the target.
pub apply_action-keeps_points :
    (s : PigState) (seat : ℕ) (a : Given PigMove) (t : TransitionResult PigState PigEvent)
    → IsValid s
    → apply_action s seat a ≡ ok t
    → (t.state.score0 + t.state.score1 + t.state.turn_total ≡ s.score0 + s.score1 + s.turn_total)
      × (score_of t.state (other_seat seat) ≡ score_of s (other_seat seat))
      × (t.state.target_score ≡ s.target_score)
unfolding apply_action
apply_action-keeps_points s seat foreign t v h =
    absurd (foreign_refused s seat (>>=-eq-ok (validate_action s seat foreign) _ h).1)
apply_action-keeps_points s seat (given roll) t v h =
    let (u, valid, rest) = >>=-eq-ok (validate_action s seat (given roll)) _ h in
    let (next, made, same) = >>=-eq-ok (make_state (record s { roll_pending = true })) _ rest in
    ground (arith, make_state-eq_ok (record s { roll_pending = true }) made)
apply_action-keeps_points s seat (given hold) t v h =
    let (u, valid, rest) = >>=-eq-ok (validate_action s seat (given hold)) _ h in
    let (a, b, p, c) = validated s seat (given hold) valid in
    let (t', applied, state, reported) = bank-ok s seat (banked-IsValid s seat v a b p c) in
    let same : t' ≡ t = cc (applied, rest) in
    subst (λ (t : TransitionResult PigState PigEvent). Keeps s seat t.state) same
      (subst (Keeps s seat) (sym state) (Keeps-banked s seat))
