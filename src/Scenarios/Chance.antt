-- ===== src/Scenarios/Chance.antt =====
-- A generator whose first digest is refused.
use agents_arena.Prelude.{
  ℕ, zero, suc, ◌+◌, ◌-◌, ◌/◌, ◌≤◌, ◌<◌, ◌≡◌, ◌≤◌, refl, true, false, List, [], ◌∷◌, arith, length,
  all, ltb, ◌==◌, if◌then◌else◌,
}
use agents_arena.Core.Errors.{ok}
use agents_arena.Core.Chance.{
  ChanceRng, word_max, make_rng, accept_limit, block_at, draw, draw_many,
}
use agents_arena.Core.Chance.Draw.{draw_many-bounds, draw-first}
use agents_arena.Core.Chance.Uniform.{remainder_count, accept_limit-uniform}

abbrev rng : ChanceRng
rng = record { seed = 7; counter = 0 }

-- The largest word first, which no die accepts, then the counter and three more.
abbrev digests : ℕ → ℕ → ℕ
digests seed counter = if counter == 0 then word_max - 1 else counter + 3

refused_digest : (j : ℕ) → 0 ≤ j → j < 1 → ltb (digests 7 j) (accept_limit 6) ≡ false
unfolding accept_limit
refused_digest zero l u = refl
refused_digest (suc j) l u = absurd (omega arith)

accepted_digest : ltb (digests 7 1) (accept_limit 6) ≡ true
unfolding accept_limit
accepted_digest = refl

draw-first_example : draw digests 2 rng 6 ≡ ok (4, record { seed = 7; counter = 2 })
draw-first_example =
    draw-first digests 2 rng 6 1 (omega arith) (omega arith) (omega arith) (omega arith)
      refused_digest accepted_digest (omega arith) (omega arith)

abbrev three : List ℕ
three = 4 ∷ 5 ∷ 0 ∷ []

three_drawn : draw_many digests 2 rng 6 3 ≡ ok (three, record { seed = 7; counter = 4 })
unfolding draw_many draw block_at accept_limit make_rng
three_drawn = refl

draw_many-bounds_example : (length three ≡ 3) × (all (λ v. ltb v 6) three ≡ true)
draw_many-bounds_example =
    draw_many-bounds digests 2 rng 6 3 three (record { seed = 7; counter = 4 }) three_drawn

accept_limit-uniform_example :
    (accept_limit 6 ≤ word_max) × (remainder_count 6 5 (accept_limit 6) ≡ word_max / 6)
accept_limit-uniform_example = accept_limit-uniform 6 5 (omega arith)
