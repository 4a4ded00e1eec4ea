-- ===== src/Games/Nim/Length.antt =====
-- The length of a match of Nim, src/arena/games/nim.
use mathlib.Core.Path.{subst}
use agents_arena.Prelude.{
  ℕ, zero, suc, ◌+◌, ◌*◌, ◌≤◌, ◌≡◌, ap, List, [], ◌∷◌, arith, length, sum, replicate,
}
use agents_arena.Core.Errors.{Result, ok, ◌>>=◌, >>=-eq-ok}
use agents_arena.Core.Engine.{Given, given, foreign, TransitionResult}
use agents_arena.Games.Nim.{
  NimConfig, NimState, NimEvent, TakeObjects, make_state, initial_state, validate_action, take_from,
  apply_action,
}
use agents_arena.Games.Nim.Legal.{validate_action-eq_ok}
use agents_arena.Games.Nim.Moves.{
  IsValid, moved, apply_action-moved, moved-IsValid, sum-moved, foreign_refused, seat_of_turn,
}

-- The moves of a match, each with the seat that makes it, applied in turn.
unfoldable pub run : NimConfig → NimState → List (ℕ × Given TakeObjects) → Result NimState
run engine s [] = ok s
run engine s ((seat, a) ∷ moves) = do t ← apply_action engine s seat a; run engine t.state moves

pub apply_action-sum :
    (engine : NimConfig) (s : NimState) (seat : ℕ) (a : Given TakeObjects)
    {t : TransitionResult NimState NimEvent}
    → IsValid s
    → apply_action engine s seat a ≡ ok t
    → (sum t.state.piles + 1 ≤ sum s.piles) × IsValid t.state
unfolding apply_action
apply_action-sum engine s seat foreign v h = absurd (
    foreign_refused s
      (validate_action-eq_ok engine s seat foreign
        (>>=-eq-ok (validate_action engine s seat foreign) _ h).1).1)
apply_action-sum engine s seat (given a) {t} v h =
    let valid : validate_action engine s seat (given a) ≡ ok tt =
      (>>=-eq-ok (validate_action engine s seat (given a)) _ h).1 in
    let made : moved seat a (take_from 0 a s.piles) ≡ t =
      cc (apply_action-moved engine s seat a v valid) in
    subst (λ t. (sum t.state.piles + 1 ≤ sum s.piles) × IsValid t.state) made
      (
        omega (arith, sum-moved engine s seat a v valid),
        moved-IsValid engine s seat a v (seat_of_turn engine s seat (given a) v valid),
      )

-- Every move removes an object, so a match has no more moves than objects.
pub run-length :
    (engine : NimConfig) (s s' : NimState) (moves : List (ℕ × Given TakeObjects))
    → IsValid s
    → run engine s moves ≡ ok s'
    → sum s'.piles + length moves ≤ sum s.piles
unfolding run
run-length engine s s' [] v h = ground arith
run-length engine s s' ((seat, a) ∷ moves) v h =
    let (t, moved_on, rest) =
      >>=-eq-ok (apply_action engine s seat a) (λ t. run engine t.state moves) h in
    let (less, v') = apply_action-sum engine s seat a v moved_on in
    omega (arith, run-length engine t.state s' moves v' rest)

pub sum-replicate : (n size : ℕ) → sum (replicate n size) ≡ n * size
sum-replicate zero size = omega arith
sum-replicate (suc n) size = omega (arith, sum-replicate n size)

make_state-eq_ok :
    (piles : List ℕ) (seat : ℕ) {s : NimState}
    → make_state piles seat ≡ ok s
    → IsValid s × (s.piles ≡ piles)
unfolding make_state
make_state-eq_ok [] seat h = cc
make_state-eq_ok (pile ∷ piles) seat h = ground arith

pub initial_state-IsValid :
    (engine config : NimConfig) (s : NimState) {started : NimConfig}
    → initial_state engine config ≡ ok (started, s)
    → IsValid s × (s.piles ≡ replicate config.num_piles config.max_pile_size)
unfolding initial_state
initial_state-IsValid engine config s h =
    let (s', made, same) =
      >>=-eq-ok (make_state (replicate config.num_piles config.max_pile_size) 0) _ h in
    ground (arith, make_state-eq_ok (replicate config.num_piles config.max_pile_size) 0 made)

-- Moves that are applied one after the other from the initial state of a configuration are at most
-- num_piles * max_pile_size.
pub run-bounded :
    (engine config : NimConfig) (s₀ s : NimState) (moves : List (ℕ × Given TakeObjects))
    → initial_state engine config ≡ ok (config, s₀)
    → run config s₀ moves ≡ ok s
    → length moves ≤ config.num_piles * config.max_pile_size
run-bounded engine config s₀ s moves h played =
    let (v, same) = initial_state-IsValid engine config s₀ h in
    omega (
      arith,
      run-length config s₀ s moves v played,
      ap (sum) same,
      sum-replicate config.num_piles config.max_pile_size,
    )
