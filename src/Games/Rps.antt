-- ===== src/Games/Rps.antt =====
-- Rock-Paper-Scissors, src/arena/games/rps: every round is a joint turn of both seats. A `Throw`
-- holds one of three shapes, so the shape is a data type here.
pub mod Rounds
use agents_arena.Prelude.{
  ℕ, suc, ◌+◌, Bool, true, false, not, ◌&&◌, ◌||◌, Option, none, some, List, [], ◌∷◌, ltb, leb,
  ◌==◌, list_eq, sorted, if◌then◌else◌,
}
use agents_arena.Core.Errors.{
  Result, ok, err, ◌>>=◌, ◌>>◌, raise_if, value_error, wrong_player, illegal_action, game_finished,
}
use agents_arena.Core.Engine.{
  GameTypes, Given, given, foreign, RuleResult, win, draw, TransitionResult, SeatMap, RulesEngine,
}
use agents_arena.Core.Simultaneous.{keys, get_seat}

abbrev pub max_target_wins : ℕ
max_target_wins = 10

abbrev pub max_rounds_cap : ℕ
max_rounds_cap = 100

pub record RpsConfig : Type 0 where
  pub target_wins : ℕ
  pub max_rounds : ℕ

pub data Shape : Type 0 where
  rock paper scissors : Shape

-- The shape that a shape beats.
unfoldable pub beats : Shape → Shape
beats rock = scissors
beats paper = rock
beats scissors = paper

unfoldable pub same_shape : Shape → Shape → Bool
same_shape rock rock = true
same_shape paper paper = true
same_shape scissors scissors = true
same_shape _ _ = false

-- The seat whose throw beats the other's, or none for a tie.
unfoldable pub round_winner : Shape → Shape → Option ℕ
unfolding same_shape beats
round_winner throw0 throw1 =
    if same_shape throw0 throw1
    then none
    else if same_shape (beats throw0) throw1
    then some 0
    else some 1

pub record RoundResult : Type 0 where
  pub throw0 : Shape
  pub throw1 : Shape
  pub winner : Option ℕ

pub record RpsState : Type 0 where
  pub wins0 : ℕ
  pub wins1 : ℕ
  pub rounds_played : ℕ
  pub target_wins : ℕ
  pub max_rounds : ℕ
  pub last_round : Option RoundResult

abbrev same_winner : Option ℕ → Option ℕ → Bool
same_winner none none = true
same_winner none (some b) = false
same_winner (some a) none = false
same_winner (some a) (some b) = a == b

-- The checks of `RoundResult.__post_init__`.
unfoldable pub make_round : RoundResult → Result RoundResult
unfolding round_winner
make_round r = do
  raise_if (not (same_winner r.winner (round_winner r.throw0 r.throw1))) value_error
  ok r

-- `wins[winner]` of the last round's winner; `wins[2]` and beyond cannot be reached.
abbrev pub wins_of : RpsState → ℕ → ℕ
wins_of state seat = if seat == 0 then state.wins0 else state.wins1

-- The last round's winner, if there is a last round and it had one.
abbrev pub last_winner : Option RoundResult → Option ℕ
last_winner none = none
last_winner (some r) = r.winner

abbrev pub is_none {ℓ} : {A : Type ℓ} → Option A → Bool
is_none none = true
is_none (some a) = false

-- A seat that has reached the target won the last round.
abbrev pub won_last : Option ℕ → ℕ → Bool
won_last none seat = false
won_last (some winner) seat = winner == seat

abbrev pub winner_has_won : RpsState → Option ℕ → Bool
winner_has_won state none = true
winner_has_won state (some winner) = leb 1 (wins_of state winner)

-- The checks of `RpsState.__post_init__`, in its order.
unfoldable pub make_state : RpsState → Result RpsState
make_state s = do
  raise_if (not (leb 1 s.target_wins && leb s.target_wins max_target_wins)) value_error
  raise_if (not (leb 1 s.max_rounds && leb s.max_rounds max_rounds_cap)) value_error
  raise_if (not (leb s.rounds_played s.max_rounds)) value_error
  raise_if (ltb s.rounds_played (s.wins0 + s.wins1)) value_error
  raise_if (ltb s.target_wins s.wins0 || ltb s.target_wins s.wins1) value_error
  raise_if (s.wins0 == s.target_wins && s.wins1 == s.target_wins) value_error
  raise_if (if s.rounds_played == 0 then not (is_none s.last_round) else is_none s.last_round)
      value_error
  raise_if (not (winner_has_won s (last_winner s.last_round))) value_error
  raise_if (s.wins0 == s.target_wins && not (won_last (last_winner s.last_round) 0)) value_error
  raise_if (s.wins1 == s.target_wins && not (won_last (last_winner s.last_round) 1)) value_error
  ok s

pub data RpsEvent : Type 0 where
  round_played : (round_number : ℕ) (throw0 throw1 : Shape) (winner : Option ℕ) → RpsEvent
  rps_match_decided : (winner : Option ℕ) → RpsEvent

unfoldable pub initial_state : Unit {0} → RpsConfig → Result (Unit {0} × RpsState)
initial_state engine config = do
  state ← make_state (record {
    wins0 = 0;
    wins1 = 0;
    rounds_played = 0;
    target_wins = config.target_wins;
    max_rounds = config.max_rounds;
    last_round = none;
  })
  ok (engine, state)

-- `max(state.wins) >= state.target_wins or state.rounds_played >= state.max_rounds`.
unfoldable pub is_terminal : RpsState → Bool
is_terminal s =
    leb s.target_wins s.wins0 || leb s.target_wins s.wins1 || leb s.max_rounds s.rounds_played

unfoldable pub result : RpsState → Option RuleResult
unfolding is_terminal
result s =
    if not (is_terminal s)
    then none
    else if s.wins0 == s.wins1
    then some draw
    else some (win (if ltb s.wins1 s.wins0 then 0 else 1))

seat_of : Option RuleResult → ℕ
seat_of (some (win seat)) = seat
seat_of _ = 0

unfoldable pub current_seat : RpsState → ℕ
unfolding result seat_of
current_seat s = seat_of (result s)

unfoldable pub acting_seats : RpsState → List ℕ
unfolding is_terminal
acting_seats s = if is_terminal s then [] else 0 ∷ 1 ∷ []

abbrev pub is_valid_seat : ℕ → Bool
is_valid_seat seat = seat == 0 || seat == 1

unfoldable pub legal_actions : RpsState → ℕ → List (Given Shape)
unfolding is_terminal
legal_actions s seat =
    if is_terminal s || not (is_valid_seat seat)
    then []
    else given rock ∷ given paper ∷ given scissors ∷ []

-- `isinstance(action, Throw)`.
abbrev is_foreign : {A : Type 0} → Given A → Bool
is_foreign (given a) = false
is_foreign foreign = true

unfoldable pub validate_action : RpsState → ℕ → Given Shape → Result (Unit {0})
unfolding is_terminal
validate_action s seat action = do
  raise_if (is_terminal s) game_finished
  raise_if (not (is_valid_seat seat)) wrong_player
  raise_if (is_foreign action) illegal_action

-- No seat acts alone.
unfoldable pub apply_action :
    RpsState → ℕ → Given Shape → Result (TransitionResult RpsState RpsEvent)
unfolding is_terminal
apply_action s seat action = if is_terminal s then err game_finished else err wrong_player

abbrev pub add_win : Option ℕ → ℕ → ℕ → ℕ
add_win none seat wins = wins
add_win (some winner) seat wins = if winner == seat then wins + 1 else wins

abbrev winner_of : RuleResult → Option ℕ
winner_of (win seat) = some seat
winner_of draw = none

abbrev pub decided : Option RuleResult → List RpsEvent
decided none = []
decided (some r) = rps_match_decided (winner_of r) ∷ []

-- The state after both throws, before the constructor checks it.
unfoldable pub after_round : RpsState → Shape → Shape → RpsState
unfolding round_winner
after_round s throw0 throw1 =
    let winner = round_winner throw0 throw1 in
    record s {
      wins0 = add_win winner 0 s.wins0;
      wins1 = add_win winner 1 s.wins1;
      rounds_played = s.rounds_played + 1;
      last_round = some (record { throw0 = throw0; throw1 = throw1; winner = winner });
    }

pub play_round : RpsState → Given Shape → Given Shape → Result (TransitionResult RpsState RpsEvent)
play_round s (given throw0) (given throw1) =
    let winner = round_winner throw0 throw1 in
    do
      last ← make_round (record { throw0 = throw0; throw1 = throw1; winner = winner })
      next ← make_state (after_round s throw0 throw1)
      ok (record {
        state = next;
        events = round_played next.rounds_played throw0 throw1 winner ∷ decided (result next);
        result = result next;
      })
play_round s _ _ = err illegal_action

unfoldable pub apply_joint_action :
    RpsState → SeatMap (Given Shape) → Result (TransitionResult RpsState RpsEvent)
unfolding play_round
apply_joint_action s actions = do
  raise_if (not (list_eq (sorted (keys actions)) (0 ∷ 1 ∷ []))) wrong_player
  action0 ← get_seat 0 actions
  validate_action s 0 action0
  action1 ← get_seat 1 actions
  validate_action s 1 action1
  play_round s action0 action1

pub record RpsObservation : Type 0 where
  pub seat : ℕ
  pub state : RpsState
  pub legal_actions : List (Given Shape)

-- The observation carries every field of the state.
unfoldable pub observation : RpsState → ℕ → Result RpsObservation
unfolding legal_actions
observation s seat =
    if not (is_valid_seat seat)
    then err wrong_player
    else ok (record { seat = seat; state = s; legal_actions = legal_actions s seat })

abbrev pub rps_types : Type 0 → GameTypes
rps_types Json = record {
  Engine = Unit {0};
  Config = RpsConfig;
  State = RpsState;
  Action = Given Shape;
  Outcome = ⊥;
  Event = RpsEvent;
  Observation = RpsObservation;
  Json = Json;
}

abbrev pub rps_rules : (Json : Type 0) → RulesEngine (rps_types Json)
rps_rules Json = record {
  initial_state = initial_state;
  current_seat = λ engine. current_seat;
  legal_actions = λ engine. legal_actions;
  validate_action = λ engine. validate_action;
  apply_action = λ engine. apply_action;
  is_terminal = λ engine. is_terminal;
  result = λ engine. result;
  observation = λ engine. observation;
  public_state_hook = none;
  is_chance_node_hook = none;
  sample_chance_hook = none;
  apply_chance_hook = none;
  acting_seats_hook = some (λ engine. acting_seats);
  apply_joint_action_hook = some (λ engine. apply_joint_action);
}
