-- ===== src/Core/Chance/Uniform.antt =====
-- The words that ChanceRng.draw accepts, src/arena/core/chance.py: how often each remainder comes.
use native.Mathlib.Nat.{mod-eq_of_lt, mul-add-mod_self_right, div-add-mod'}
use agents_arena.Prelude.{
  ℕ, zero, suc, ◌+◌, ◌-◌, ◌*◌, ◌/◌, ◌%◌, ◌≤◌, ◌<◌, ◌≡◌, ◌∙◌, ap, arith, ltb, ◌==◌, if◌then◌else◌,
}
use agents_arena.Core.Chance.{word_max, accept_limit}

-- How many of the words below a limit have the remainder `r`.
unfoldable pub remainder_count : (bound r limit : ℕ) → ℕ
remainder_count bound r zero = 0
remainder_count bound r (suc limit) =
    remainder_count bound r limit + (if limit % bound == r then 1 else 0)

-- In the words from a multiple of the bound on, the remainder comes once.
remainder_count-block :
    (bound r q k : ℕ)
    → k ≤ bound
    → remainder_count bound r (q * bound + k)
      ≡ remainder_count bound r (q * bound) + (if ltb r k then 1 else 0)
unfolding remainder_count
remainder_count-block bound r q zero below = ground arith
remainder_count-block bound r q (suc k) below =
    let same : (q * bound + k) % bound ≡ k =
      mul-add-mod_self_right q bound k ∙ mod-eq_of_lt (omega arith) in
    let next : q * bound + suc k ≡ suc (q * bound + k) = omega arith in
    rw (next, same) (ground (arith, remainder_count-block bound r q k (omega arith)))

remainder_count-multiple : (bound r q : ℕ) → r < bound → remainder_count bound r (q * bound) ≡ q
unfolding remainder_count
remainder_count-multiple bound r zero small = ground arith
remainder_count-multiple bound r (suc q) small =
    let more : suc q * bound ≡ q * bound + bound = omega arith in
    rw more (
      ground (
        arith,
        remainder_count-block bound r q bound (omega arith),
        remainder_count-multiple bound r q small,
      ))

-- The numbers below the limit are words of 64 bits, and each remainder below the bound comes from the
-- same number of them, `word_max / bound`.
pub accept_limit-uniform :
    (bound r : ℕ)
    → r < bound
    → (accept_limit bound ≤ word_max)
      × (remainder_count bound r (accept_limit bound) ≡ word_max / bound)
unfolding accept_limit
accept_limit-uniform bound r small =
    let limit : word_max - word_max % bound ≡ word_max / bound * bound =
      omega (arith, div-add-mod' word_max bound) in
    (
      omega arith,
      ap (remainder_count bound r) limit
          ∙ remainder_count-multiple bound r (word_max / bound) small,
    )
