-- ===== src/Core/Chance.antt =====
-- `ChanceRng` of src/arena/core/chance.py: a random source addressed by a seed and a counter.
-- The BLAKE2b digest of a seed and a counter, read as an integer, is the parameter `block`.
-- `draw` loops until a digest is accepted; the model gives that loop a number of rounds.
pub mod Draw
pub mod Uniform
use agents_arena.Prelude.{
  ℕ, zero, suc, ◌+◌, ◌-◌, ◌%◌, ◌^◌, Bool, ◌&&◌, not, Option, none, some, List, [], ◌∷◌, ltb, leb,
  if◌then◌else◌,
}
use agents_arena.Core.Errors.{
  Result, ok, err, ◌>>=◌, ◌>>◌, raise_if, value_error, overflow_error, invalid_game_config,
  out_of_fuel,
}

-- `_WORD_MAX` and `_SEED_MAX`.
abbrev pub word_max : ℕ
word_max = 2 ^ 64

abbrev pub seed_max : ℕ
seed_max = 2 ^ 128

pub record ChanceRng : Type 0 where
  pub seed : ℕ
  pub counter : ℕ

-- The constructor with the check of `__post_init__`.
unfoldable pub make_rng : ℕ → ℕ → Result ChanceRng
make_rng seed counter = do
  raise_if (not (ltb seed seed_max)) value_error
  raise_if (not (ltb counter seed_max)) value_error
  ok (record { seed = seed; counter = counter })

-- The largest multiple of `bound` that fits in a word.
unfoldable pub accept_limit : ℕ → ℕ
accept_limit bound = word_max - word_max % bound

-- The payload of `dump`; a key that is missing or holds no integer reads as `none`.
pub record RngPayload : Type 0 where
  pub seed : Option ℕ
  pub counter : Option ℕ

unfoldable pub dump : ChanceRng → RngPayload
dump rng = record { seed = some rng.seed; counter = some rng.counter }

-- Whatever goes wrong is reported as an invalid configuration.
rewrap : Result ChanceRng → Result ChanceRng
rewrap (ok rng) = ok rng
rewrap (err e) = err invalid_game_config

load_fields : Option ℕ → Option ℕ → Result ChanceRng
unfolding make_rng rewrap
load_fields (some seed) (some counter) = rewrap (make_rng seed counter)
load_fields _ _ = err invalid_game_config

unfoldable pub load : RngPayload → Result ChanceRng
unfolding load_fields
load payload = load_fields payload.seed payload.counter

module _ (block : ℕ → ℕ → ℕ) where
  -- `_block`: a counter that does not fit in 16 bytes overflows.
  unfoldable pub block_at : ℕ → ℕ → Result ℕ
  block_at seed counter =
      if ltb counter seed_max then ok (block seed counter) else err overflow_error

  draw_accepted : ℕ → ℕ → ℕ → ℕ → Result (ℕ × ChanceRng)
  unfolding make_rng
  draw_accepted seed bound counter raw = do rng ← make_rng seed (counter + 1); ok (raw % bound, rng)

  -- The `while True` loop, with rounds left, from `counter` on.
  draw_loop : ℕ → ℕ → ℕ → ℕ → Result (ℕ × ChanceRng)
  unfolding block_at draw_accepted accept_limit
  draw_loop zero seed bound counter = err out_of_fuel
  draw_loop (suc rounds) seed bound counter = do
    raw ← block_at seed counter
    let again = draw_loop rounds seed bound (counter + 1)
    if ltb raw (accept_limit bound) then draw_accepted seed bound counter raw else again

  unfoldable pub draw : ℕ → ChanceRng → ℕ → Result (ℕ × ChanceRng)
  unfolding draw_loop
  draw rounds rng bound = do
    raise_if (not (ltb 0 bound && leb bound word_max)) value_error
    draw_loop rounds rng.seed bound rng.counter

  -- The values come out in the order in which they are drawn.
  unfoldable pub draw_many : ℕ → ChanceRng → ℕ → ℕ → Result (List ℕ × ChanceRng)
  unfolding draw
  draw_many rounds rng bound zero = ok ([], rng)
  draw_many rounds rng bound (suc count) = do
    (value, next) ← draw rounds rng bound
    (values, last) ← draw_many rounds next bound count
    ok (value ∷ values, last)
