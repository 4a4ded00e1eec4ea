-- ===== src/Games/Rps/Rounds.antt =====
-- A round of Rock-Paper-Scissors, src/arena/games/rps, and the constructor of its state.
use agents_arena.Prelude.{
  ℕ, ◌+◌, ◌≤◌, ◌<◌, ◌≡◌, refl, ◌↔◌, ◌⊎◌, inl, inr, true, false, Option, none, some, [], ◌∷◌, arith,
  In, not, ◌==◌, if◌then◌else◌,
}
use agents_arena.Core.Errors.{ok}
use agents_arena.Core.Engine.{Given, given, foreign, TransitionResult}
use agents_arena.Games.Rps.{
  is_none, won_last, winner_has_won, decided, round_played, Shape, RoundResult, RpsState, RpsEvent,
  round_winner, beats, make_round, make_state, is_terminal, result, legal_actions, validate_action,
  after_round, play_round, apply_joint_action, max_target_wins, max_rounds_cap, last_winner,
}

-- Swapping the two throws swaps the winner.
abbrev pub swap_seat : Option ℕ → Option ℕ
swap_seat none = none
swap_seat (some seat) = if seat == 0 then some 1 else some 0

pub round_winner-swap : (a b : Shape) → round_winner b a ≡ swap_seat (round_winner a b)
unfolding round_winner
round_winner-swap a b = ground arith

-- A seat wins a round exactly if its throw beats the other's.
pub round_winner_iff :
    (a b : Shape)
    → ((round_winner a b ≡ some 0) ↔ (beats a ≡ b))
      × ((round_winner a b ≡ some 1) ↔ (beats b ≡ a))
      × ((round_winner a b ≡ none) ↔ (a ≡ b))
unfolding round_winner
round_winner_iff a b = ground arith

round_winner-cases :
    (a b : Shape)
    → (round_winner a b ≡ none) ⊎ (round_winner a b ≡ some 0) ⊎ (round_winner a b ≡ some 1)
unfolding round_winner
round_winner-cases a b = ground arith

-- What the constructor of `RpsState` accepts.
pub record IsValid (s : RpsState) : Type 0 where
  pub target : (1 ≤ s.target_wins) × (s.target_wins ≤ max_target_wins)
  pub cap : (1 ≤ s.max_rounds) × (s.max_rounds ≤ max_rounds_cap)
  pub rounds : s.rounds_played ≤ s.max_rounds
  pub won : s.wins0 + s.wins1 ≤ s.rounds_played
  pub below0 : s.wins0 ≤ s.target_wins
  pub below1 : s.wins1 ≤ s.target_wins
  pub one_winner : s.wins0 ≡ s.target_wins → s.wins1 < s.target_wins
  pub last :
      (if s.rounds_played == 0 then not (is_none s.last_round) else is_none s.last_round) ≡ false
  pub last_won : winner_has_won s (last_winner s.last_round) ≡ true
  pub leader0 : s.wins0 ≡ s.target_wins → won_last (last_winner s.last_round) 0 ≡ true
  pub leader1 : s.wins1 ≡ s.target_wins → won_last (last_winner s.last_round) 1 ≡ true

pub make_state-eq_ok : (s : RpsState) {t : RpsState} → make_state s ≡ ok t → IsValid s × (t ≡ s)
unfolding make_state
make_state-eq_ok s h = ground arith

pub make_state-valid : (s : RpsState) → IsValid s → make_state s ≡ ok s
unfolding make_state
make_state-valid s v = ground arith

after_round-IsValid :
    (s : RpsState) (a b : Shape) → IsValid s → is_terminal s ≡ false → IsValid (after_round s a b)
unfolding is_terminal after_round
after_round-IsValid s a b v running = elim (round_winner-cases a b) [
  | inl tie ↦ ground arith
  | inr (inl zero_won) ↦ ground arith
  | inr (inr one_won) ↦ ground arith
]

round_winner-made :
    (a b : Shape) (r : RoundResult)
    → r ≡ record { throw0 = a; throw1 = b; winner = round_winner a b }
    → make_round r ≡ ok r
unfolding make_round round_winner
round_winner-made a b r h = ground arith

-- What a resolved round returns.
pub round_outcome : RpsState → Shape → Shape → TransitionResult RpsState RpsEvent
round_outcome s a b = record {
  state = after_round s a b;
  events =
      round_played (after_round s a b).rounds_played a b (round_winner a b)
      ∷ decided (result (after_round s a b));
  result = result (after_round s a b);
}

play_round-ok :
    (s : RpsState) (a b : Shape)
    → IsValid s
    → is_terminal s ≡ false
    → play_round s (given a) (given b) ≡ ok (round_outcome s a b)
unfolding play_round round_outcome
play_round-ok s a b v running = rw (
  round_winner-made a b _ refl,
  make_state-valid (after_round s a b) (after_round-IsValid s a b v running),
)

after_round-rounds :
    (s : RpsState) (a b : Shape) → (after_round s a b).rounds_played ≡ s.rounds_played + 1
unfolding after_round
after_round-rounds s a b = refl

-- In a running match that the constructor accepts, the throws of both seats are resolved: the next
-- state is accepted too, has one more round, and its result is the one that is reported.
pub rps_apply_joint_action-IsValid :
    (s : RpsState) (a b : Shape)
    → IsValid s
    → is_terminal s ≡ false
    → (t : TransitionResult RpsState RpsEvent) × (apply_joint_action s
          ((0, given a) ∷ (1, given b) ∷ [])
        ≡ ok t)
      × IsValid t.state
      × (t.state.rounds_played ≡ s.rounds_played + 1)
      × (t.result ≡ result t.state)
unfolding apply_joint_action validate_action round_outcome
rps_apply_joint_action-IsValid s a b v running = (
  round_outcome s a b,
  rw running (play_round-ok s a b v running),
  after_round-IsValid s a b v running,
  after_round-rounds s a b,
  refl,
)

-- A throw is legal for a seat exactly if it is validated.
pub rps_legal_actions-iff_valid :
    (s : RpsState) (seat : ℕ) (action : Given Shape)
    → In action (legal_actions s seat) ↔ (validate_action s seat action ≡ ok tt)
unfolding legal_actions validate_action
rps_legal_actions-iff_valid s seat foreign = ground arith
rps_legal_actions-iff_valid s seat (given a) = ground arith
