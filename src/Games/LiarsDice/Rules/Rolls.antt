-- ===== src/Games/LiarsDice/Rules/Rolls.antt =====
-- The rolls of Liar's Dice, src/arena/games/liarsdice/rules.py: what `sample_chance` draws, and what
-- `apply_chance` makes of it.
use mathlib.Core.Path.{subst}
use agents_arena.Prelude.{
  ℕ, suc, ◌+◌, ◌≤◌, ◌≡◌, refl, sym, ap, true, false, not, Option, none, some, List, [], ◌∷◌, all,
  length, arith, ltb,
}
use agents_arena.Core.Errors.{ok, >>=-eq-ok, raise_if}
use agents_arena.Core.Chance
use agents_arena.Core.Chance.{ChanceRng}
use agents_arena.Core.Chance.Draw
use agents_arena.Core.Engine.{Given, given, TransitionResult}
use agents_arena.Games.LiarsDice.State.{
  LiarsDiceState, Hands, Roll, Showdown, hand_fits, bids_rise, make_state, shows_faces,
}
use agents_arena.Games.LiarsDice.Rules.{
  LiarsDiceEvent, roll_events, is_terminal, is_chance_node, result, sample_chance, apply_chance,
  faces_of,
}
use agents_arena.Games.LiarsDice.Valid.{IsValid, Dealt, Shown, make_state-valid, make_state-same}

-- The state after a roll.
abbrev pub rolled : LiarsDiceState → Hands → LiarsDiceState
rolled s dice = record s { dice = some dice; bids = []; round_number = s.round_number + 1 }

Shown-later :
    (round_number faces : ℕ) (showdown : Option Showdown)
    → Shown round_number faces showdown
    → Shown (round_number + 1) faces showdown
unfolding Shown
Shown-later round_number faces none h = tt
Shown-later round_number faces (some showdown) h = (omega arith, h.1)

-- Both seats have dice at a chance node.
waiting : (s : LiarsDiceState) → is_chance_node s ≡ true → (1 ≤ s.count0) × (1 ≤ s.count1)
unfolding is_chance_node is_terminal result
waiting s c = ground arith

pub rolled-IsValid :
    (s : LiarsDiceState) (dice : Hands)
    → IsValid s
    → is_chance_node s ≡ true
    → hand_fits s.faces s.count0 dice.hand0 ≡ true
    → hand_fits s.faces s.count1 dice.hand1 ≡ true
    → IsValid (rolled s dice)
unfolding Dealt bids_rise
rolled-IsValid s dice v c f0 f1 =
    let (c0, c1) = waiting s c in
    record {
      faces = v.faces;
      seat = v.seat;
      counts = v.counts;
      dice_left = v.dice_left;
      winner0 = λ h. absurd (omega arith);
      winner1 = λ h. absurd (omega arith);
      dealt = (omega arith, c0, c1, f0, f1);
      shown = Shown-later s.round_number s.faces s.last_showdown v.shown;
      rise = refl;
    }

-- A roll that fits lands.
apply_chance-rolled :
    (s : LiarsDiceState) (dice : Hands)
    → IsValid s
    → is_chance_node s ≡ true
    → hand_fits s.faces s.count0 dice.hand0 ≡ true
    → hand_fits s.faces s.count1 dice.hand1 ≡ true
    → (t : TransitionResult LiarsDiceState LiarsDiceEvent) × (apply_chance s
          (given (record { dice = dice }))
        ≡ ok t)
      × (t.state ≡ rolled s dice)
      × (t.result ≡ none)
unfolding apply_chance
apply_chance-rolled s dice v c f0 f1 = (
  record { state = rolled s dice; events = roll_events s dice; result = none },
  rw (c, f0, f1, make_state-valid _ (rolled-IsValid s dice v c f0 f1)) refl,
  refl,
  refl,
)

-- Draws below the number of faces, counted from 1 on, are a hand.
drawn_faces :
    (faces : ℕ) (draws : List ℕ)
    → all (λ v. ltb v faces) draws ≡ true
    → shows_faces faces (faces_of draws) ≡ true
drawn_faces faces [] h = refl
drawn_faces faces (d ∷ draws) h = ground (arith, drawn_faces faces draws)

length-faces_of : (draws : List ℕ) → length (faces_of draws) ≡ length draws
length-faces_of [] = refl
length-faces_of (d ∷ draws) = ap suc (length-faces_of draws)

drawn_hand :
    (faces count : ℕ) (draws : List ℕ)
    → (length draws ≡ count) × (all (λ v. ltb v faces) draws ≡ true)
    → hand_fits faces count (faces_of draws) ≡ true
unfolding hand_fits
drawn_hand faces count draws (n, h) =
    rw (drawn_faces faces draws h, length-faces_of draws, n) ground arith

-- What `sample_chance` draws at a pending roll is accepted: each hand has as many dice as its seat has
-- left, each with a face of this game, and the roll leads to a state that the constructor accepts,
-- in which no roll is pending and the match is not over.
pub sample_chance-apply_chance :
    (block : ℕ → ℕ → ℕ) (rounds : ℕ) (s : LiarsDiceState) (rng next : ChanceRng)
    (outcome : Given Roll)
    → IsValid s
    → is_chance_node s ≡ true
    → sample_chance block rounds s rng ≡ ok (outcome, next)
    → (t : TransitionResult LiarsDiceState LiarsDiceEvent) × (apply_chance s outcome ≡ ok t)
      × IsValid t.state
      × (is_chance_node t.state ≡ false)
      × (is_terminal t.state ≡ false)
unfolding sample_chance
sample_chance-apply_chance block rounds s rng next outcome v c h =
    let ((first, rng1), drawn0, more) =
      >>=-eq-ok (Chance.draw_many block rounds rng s.faces s.count0) _ h in
    let ((second, rng2), drawn1, made) =
      >>=-eq-ok (Chance.draw_many block rounds rng1 s.faces s.count1) _ more in
    let dice : Hands = record { hand0 = faces_of first; hand1 = faces_of second } in
    let fits0 =
      drawn_hand s.faces s.count0 first
        (Draw.draw_many-bounds block rounds rng s.faces s.count0 first rng1 drawn0) in
    let fits1 =
      drawn_hand s.faces s.count1 second
        (Draw.draw_many-bounds block rounds rng1 s.faces s.count1 second rng2 drawn1) in
    let (t, landed, state, over) = apply_chance-rolled s dice v c fits0 fits1 in
    let same : given (record { dice = dice }) ≡ outcome = cc made in
    (
      t,
      subst (λ o. apply_chance s o ≡ ok t) same landed,
      subst IsValid (sym state) (rolled-IsValid s dice v c fits0 fits1),
      rw state (unfold is_chance_node in refl),
      rw state (unfold is_chance_node is_terminal result in ground (arith, waiting s c)),
    )

-- What a roll that was applied went through.
pub apply_chance-eq_ok :
    (s : LiarsDiceState) (outcome : Roll) (t : TransitionResult LiarsDiceState LiarsDiceEvent)
    → apply_chance s (given outcome) ≡ ok t
    → (is_chance_node s ≡ true)
      × (hand_fits s.faces s.count0 outcome.dice.hand0 ≡ true)
      × (hand_fits s.faces s.count1 outcome.dice.hand1 ≡ true)
      × (t.state ≡ rolled s outcome.dice)
      × (t.events ≡ roll_events s outcome.dice)
unfolding apply_chance
apply_chance-eq_ok s outcome t h =
    let (u0, pending, h0) = >>=-eq-ok (raise_if (not (is_chance_node s)) _) _ h in
    let (u1, fits0, h1) =
      >>=-eq-ok (raise_if (not (hand_fits s.faces s.count0 outcome.dice.hand0)) _) _ h0 in
    let (u2, fits1, h2) =
      >>=-eq-ok (raise_if (not (hand_fits s.faces s.count1 outcome.dice.hand1)) _) _ h1 in
    let (next, made, done) = >>=-eq-ok (make_state (rolled s outcome.dice)) _ h2 in
    (
      ground arith,
      ground arith,
      ground arith,
      cc (make_state-same (rolled s outcome.dice) made, done),
      cc done,
    )
