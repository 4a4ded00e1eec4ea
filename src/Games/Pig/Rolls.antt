-- ===== src/Games/Pig/Rolls.antt =====
-- The die of Pig, src/arena/games/pig: sampling it, and its landing.
use agents_arena.Prelude.{
  ℕ, ◌+◌, ◌≤◌, ◌≡◌, true, false, ◌&&◌, if◌then◌else◌, arith, leb, ◌==◌, [], ◌∷◌, none,
}
use agents_arena.Core.Errors.{ok, >>=-eq-ok}
use agents_arena.Core.Chance
use agents_arena.Core.Chance.{ChanceRng}
use agents_arena.Core.Chance.Draw
use agents_arena.Core.Engine.{TransitionResult}
use agents_arena.Games.Pig.{
  PigState, PigEvent, DieRoll, die_faces, bust_face, is_terminal, is_chance_node, sample_chance,
  apply_chance, landed, other_seat, pig_die_rolled,
}
use agents_arena.Games.Pig.Turns.{IsValid, make_state-valid}

landed-IsValid :
    (s : PigState) (face : ℕ) → IsValid s → is_chance_node s ≡ true → IsValid (landed s face)
unfolding landed is_chance_node
landed-IsValid s face v c = ground arith

face_in_range : (face : ℕ) → 1 ≤ face → face ≤ die_faces → (leb 1 face && leb face die_faces) ≡ true
face_in_range face l u = ground arith

-- Every face of the die is accepted at a pending roll. The die is then no longer in the air, no
-- score has changed, and the match is not over. On a 1 the turn's points are gone and the other
-- seat is to move; on another face the points grow by it and the seat stays.
pub apply_chance-lands :
    (s : PigState) (face : ℕ)
    → IsValid s
    → is_chance_node s ≡ true
    → 1 ≤ face
    → face ≤ die_faces
    → (t : TransitionResult PigState PigEvent) × (apply_chance s (record { face = face }) ≡ ok t)
      × IsValid t.state
      × (is_chance_node t.state ≡ false)
      × (is_terminal t.state ≡ false)
      × (t.state.score0 ≡ s.score0)
      × (t.state.score1 ≡ s.score1)
      × (t.state.turn_total ≡ (if face == bust_face then 0 else s.turn_total + face))
      × (t.state.current_seat
          ≡ (if face == bust_face then other_seat s.current_seat else s.current_seat))
unfolding apply_chance
apply_chance-lands s face v c l u =
    let v' = landed-IsValid s face v c in
    (
      record {
        state = landed s face;
        events =
            pig_die_rolled s.current_seat face (face == bust_face) (landed s face).turn_total ∷ [];
        result = none;
      },
      rw (c, face_in_range face l u, make_state-valid (landed s face) v'),
      v',
      unfold landed is_chance_node in ground arith,
      unfold landed is_chance_node in ground arith,
      unfold landed in ground arith,
      unfold landed in ground arith,
      unfold landed in ground arith,
      unfold landed in ground arith,
    )

-- What `sample_chance` draws is a face of the die.
pub sample_chance-face :
    (block : ℕ → ℕ → ℕ) (rounds : ℕ) (s : PigState) (rng : ChanceRng) (outcome : DieRoll)
    (next : ChanceRng)
    → sample_chance block rounds s rng ≡ ok (outcome, next)
    → (1 ≤ outcome.face) × (outcome.face ≤ die_faces)
unfolding sample_chance
sample_chance-face block rounds s rng outcome next h =
    let ((v, r), drawn, made) = >>=-eq-ok (Chance.draw block rounds rng die_faces) _ h in
    ground (arith, Draw.draw-bounds block rounds rng die_faces v r drawn)
