-- ===== src/Core/Chance/Draw.antt =====
-- `draw` and `draw_many` of `ChanceRng`, src/arena/core/chance.py, and its dump and load.
use native.Mathlib.Nat.{mod-lt, mod-le, mod-eq-sub-mod}
use native.Mathlib.Nat.{le_refl}
use native.Mathlib.Decide.{ℕ_discrete}
use agents_arena.Prelude.{
  ℕ, zero, suc, ◌+◌, ◌-◌, ◌*◌, ◌%◌, ◌≤◌, ◌<◌, ◌≡◌, List, arith, length, ltb, all, true, false,
}
use agents_arena.Core.Errors.{ok, >>=-eq-ok}
use agents_arena.Core.Chance.{
  ChanceRng, word_max, seed_max, accept_limit, dump, load, draw_loop, draw, draw_many,
}

-- A generator whose seed and counter are in range survives a dump and a load.
pub load-dump :
    (rng : ChanceRng) → rng.seed < seed_max → rng.counter < seed_max → load (dump rng) ≡ ok rng
unfolding load dump
load-dump rng s c = ground arith

module _ (block : ℕ → ℕ → ℕ) where
  draw_loop-bounds :
      (rounds seed bound counter : ℕ) (v : ℕ) (rng : ChanceRng)
      → 0 < bound
      → draw_loop block rounds seed bound counter ≡ ok (v, rng)
      → (v < bound) × (rng.seed ≡ seed) × (counter < rng.counter) × (rng.counter < seed_max)
  unfolding draw_loop
  draw_loop-bounds zero seed bound counter v rng b h = cc
  draw_loop-bounds (suc rounds) seed bound counter v rng b h =
      ground (arith, draw_loop-bounds rounds seed bound (counter + 1) v rng b)

  -- A draw lies below its bound, keeps the seed, and moves the counter on.
  pub draw-bounds :
      (rounds : ℕ) (rng : ChanceRng) (bound v : ℕ) (next : ChanceRng)
      → draw block rounds rng bound ≡ ok (v, next)
      → (v < bound)
        × (next.seed ≡ rng.seed)
        × (rng.counter < next.counter)
        × (next.counter < seed_max)
  unfolding draw
  draw-bounds rounds rng bound v next h =
      ground (arith, draw_loop-bounds rounds rng.seed bound rng.counter v next)

  -- Every value of a batch lies below the bound, and as many come as were asked for.
  pub draw_many-bounds :
      (rounds : ℕ) (rng : ChanceRng) (bound count : ℕ) (vs : List ℕ) (next : ChanceRng)
      → draw_many block rounds rng bound count ≡ ok (vs, next)
      → (length vs ≡ count) × (all (λ v. ltb v bound) vs ≡ true)
  unfolding draw_many
  draw_many-bounds rounds rng bound zero vs next h = ground arith
  draw_many-bounds rounds rng bound (suc count) vs next h =
      let ((v, mid), drawn, more) = >>=-eq-ok (draw block rounds rng bound) _ h in
      let ((ws, last), rest, done) = >>=-eq-ok (draw_many block rounds mid bound count) _ more in
      ground (
        arith,
        draw-bounds rounds rng bound v mid drawn,
        draw_many-bounds rounds mid bound count ws last rest,
      )

  draw_loop-first :
      (rounds seed bound counter first : ℕ)
      → counter ≤ first
      → first < counter + rounds
      → ((j : ℕ) → counter ≤ j → j < first → ltb (block seed j) (accept_limit bound) ≡ false)
      → ltb (block seed first) (accept_limit bound) ≡ true
      → seed < seed_max
      → first + 1 < seed_max
      → draw_loop block rounds seed bound counter
        ≡ ok (block seed first % bound, record { seed = seed; counter = first + 1 })
  unfolding draw_loop
  draw_loop-first zero seed bound counter first c r low hit s m = absurd (omega arith)
  draw_loop-first (suc rounds) seed bound counter first c r low hit s m =
      elim (ℕ_discrete counter first) [
        | yes here ↦ rw here (ground arith)
        | no later ↦ ground (
          arith,
          low counter (le_refl counter) (omega arith),
          draw_loop-first rounds seed bound (counter + 1) first (omega arith) (omega arith)
              (λ j p q. low j (omega arith) q) hit s m,
        )
      ]

  -- Termination: with a bound of 1 to 2^64, a seed and a counter in range and enough rounds, a draw
  -- returns the remainder of the first digest below the limit, and the generator stands just behind
  -- that digest.
  pub draw-first :
      (rounds : ℕ) (rng : ChanceRng) (bound first : ℕ)
      → 0 < bound
      → bound ≤ word_max
      → rng.counter ≤ first
      → first < rng.counter + rounds
      → ((j : ℕ)
          → rng.counter ≤ j
          → j < first
          → ltb (block rng.seed j) (accept_limit bound) ≡ false)
      → ltb (block rng.seed first) (accept_limit bound) ≡ true
      → rng.seed < seed_max
      → first + 1 < seed_max
      → draw block rounds rng bound
        ≡ ok (block rng.seed first % bound, record { seed = rng.seed; counter = first + 1 })
  unfolding draw
  draw-first rounds rng bound first b w c r low hit s m =
      ground (arith, draw_loop-first rounds rng.seed bound rng.counter first c r low hit s m)

-- With a bound of 1 to 2^64, more than half of the words are accepted.
pub accept_limit-half :
    (bound : ℕ) → 0 < bound → bound ≤ word_max → word_max < 2 * accept_limit bound
unfolding accept_limit
accept_limit-half bound b w =
    omega (arith, mod-lt word_max b, mod-eq-sub-mod w, mod-le (word_max - bound) bound)
