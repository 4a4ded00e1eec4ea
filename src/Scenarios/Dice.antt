-- ===== src/Scenarios/Dice.antt =====
-- A match of Liar's Dice with one die each: a roll, a bid of two threes, and a call.
use agents_arena.Prelude.{ℕ, ◌+◌, ◌*◌, ◌<◌, ◌≡◌, refl, ◌↔◌, false, none, some, List, [], ◌∷◌, In}
use agents_arena.Core.Errors.{ok}
use agents_arena.Core.Chance.{ChanceRng, draw, draw_many, block_at, accept_limit, make_rng}
use agents_arena.Core.Engine.{Given, given, TransitionResult}
use agents_arena.Games.LiarsDice.State.{
  LiarsDiceConfig, LiarsDiceState, LiarsDiceAction, bid_move, call_move, Bid, Hands, Roll, Showdown,
  showing, make_showdown, standing_from, hand_fits, revealed_fits, showdown_fits, dice_fit, raises,
  bids_rise, make_state,
}
use agents_arena.Games.LiarsDice.Rules
use agents_arena.Games.LiarsDice.Rules.{LiarsDiceEvent, other_seat}
use agents_arena.Games.LiarsDice.Valid.{IsValid, make_state-IsValid}
use agents_arena.Games.LiarsDice.Rules.Moves.{liars_dice_apply_action-IsValid}
use agents_arena.Games.LiarsDice.Rules.Legal.{liars_dice_legal_actions-iff_valid}
use agents_arena.Games.LiarsDice.Rules.Rolls.{sample_chance-apply_chance}
use agents_arena.Games.LiarsDice.Rules.Ends.{
  MatchMove, acts, rolls, run, liars_dice_run-bounded, liars_dice_can_move,
}
use agents_arena.Games.LiarsDice.Serializer.{
  StatePayload, dump_state, load_state, dump_state_for_seat, dump_chance_outcome_for_seat,
}
use agents_arena.Games.LiarsDice.Serializer.Load.{AreMade, load_state-dump_state}
use agents_arena.Games.LiarsDice.Views.{observation}
use agents_arena.Games.LiarsDice.Views.Hidden.{
  holding, hands_for, visible_events, other_hand_hidden, roll_events_hidden,
}

abbrev one_die : LiarsDiceConfig
one_die = record { dice_per_seat = 1; faces = 6 }

abbrev before : LiarsDiceState
before = Rules.dealt_out one_die

abbrev threes : Hands
threes = record { hand0 = 3 ∷ []; hand1 = 3 ∷ [] }

abbrev dealt : LiarsDiceState
dealt = record before { dice = some threes; round_number = 1 }

abbrev two_threes : Bid
two_threes = record { quantity = 2; face = 3 }

abbrev bidden : LiarsDiceState
bidden = record dealt { bids = two_threes ∷ []; current_seat = 1 }

abbrev revealed : Showdown
revealed = record { caller = 1; bid = two_threes; dice = threes; count = 2; loser = 1 }

abbrev over : LiarsDiceState
over = record before { count1 = 0; round_number = 1; last_showdown = some revealed }

before_made : make_state before ≡ ok before
unfolding make_state showdown_fits dice_fit bids_rise
before_made = refl

bidden_made : make_state bidden ≡ ok bidden
unfolding make_state showdown_fits dice_fit bids_rise hand_fits raises
bidden_made = refl

over_made : make_state over ≡ ok over
unfolding make_state showdown_fits dice_fit bids_rise revealed_fits
over_made = refl

bid_valid : Rules.validate_action dealt 0 (given (bid_move two_threes)) ≡ ok tt
unfolding Rules.validate_action Rules.is_terminal Rules.result Rules.is_chance_node raises
    standing_from
bid_valid = refl

call_valid : Rules.validate_action bidden 1 (given call_move) ≡ ok tt
unfolding Rules.validate_action Rules.is_terminal Rules.result Rules.is_chance_node standing_from
call_valid = refl

liars_dice_apply_action-IsValid_example :
    (t : TransitionResult LiarsDiceState LiarsDiceEvent) × (Rules.apply_action bidden 1
        (given call_move)
      ≡ ok t)
    × IsValid t.state
    × (t.result ≡ Rules.result t.state)
liars_dice_apply_action-IsValid_example =
    liars_dice_apply_action-IsValid bidden 1 (given call_move)
      (make_state-IsValid bidden bidden_made) call_valid

liars_dice_legal_actions-iff_valid_example :
    In (given (bid_move two_threes)) (Rules.legal_actions dealt 0)
    ↔ (Rules.validate_action dealt 0 (given (bid_move two_threes)) ≡ ok tt)
liars_dice_legal_actions-iff_valid_example =
    liars_dice_legal_actions-iff_valid dealt 0 (given (bid_move two_threes))

liars_dice_can_move_example : (a : Given LiarsDiceAction) × In a (Rules.legal_actions bidden 1)
unfolding Rules.is_terminal Rules.result Rules.is_chance_node
liars_dice_can_move_example =
    liars_dice_can_move bidden (make_state-IsValid bidden bidden_made) refl refl

abbrev die : ChanceRng
die = record { seed = 7; counter = 2 }

abbrev rolled : Given Roll
rolled = given (record { dice = record { hand0 = 3 ∷ []; hand1 = 4 ∷ [] } })

-- Each digest is its counter.
sampled :
    Rules.sample_chance (λ seed counter. counter) 1 before die
    ≡ ok (rolled, record { seed = 7; counter = 4 })
unfolding Rules.sample_chance draw_many draw block_at accept_limit make_rng
sampled = refl

sample_chance-apply_chance_example :
    (t : TransitionResult LiarsDiceState LiarsDiceEvent) × (Rules.apply_chance before rolled ≡ ok t)
    × IsValid t.state
    × (Rules.is_chance_node t.state ≡ false)
    × (Rules.is_terminal t.state ≡ false)
unfolding Rules.is_terminal Rules.result Rules.is_chance_node
sample_chance-apply_chance_example =
    sample_chance-apply_chance (λ seed counter. counter) 1 before die
      (record { seed = 7; counter = 4 }) rolled (make_state-IsValid before before_made) refl sampled

abbrev moves : List MatchMove
moves =
    rolls (given (record { dice = threes }))
    ∷ acts 0 (given (bid_move two_threes))
    ∷ acts 1 (given call_move)
    ∷ []

opened : Rules.initial_state tt one_die ≡ ok (tt, before)
unfolding Rules.initial_state make_state showdown_fits dice_fit bids_rise
opened = refl

played : run before moves ≡ ok over
unfolding run Rules.apply_chance Rules.apply_action Rules.validate_action Rules.is_terminal
    Rules.result Rules.is_chance_node raises standing_from make_state showdown_fits dice_fit
    bids_rise hand_fits revealed_fits make_showdown showing other_seat
played = refl

liars_dice_run-bounded_example : 3 < 472 * 1 + 236
liars_dice_run-bounded_example = liars_dice_run-bounded one_die before over moves opened played

over_objects : AreMade over.bids over.last_showdown
unfolding AreMade make_showdown showing
over_objects = (refl, refl, refl)

load_state-dump_state_example :
    (payload : StatePayload) × (dump_state over ≡ ok payload) × (load_state payload ≡ ok over)
load_state-dump_state_example =
    load_state-dump_state over (make_state-IsValid over over_made) over_objects

other_hand_hidden_example :
    (observation (holding dealt 1 (3 ∷ []) (2 ∷ [])) 1
      ≡ observation (holding dealt 1 (3 ∷ []) (5 ∷ [])) 1)
    × (dump_state_for_seat (holding dealt 1 (3 ∷ []) (2 ∷ [])) 1
        ≡ dump_state_for_seat (holding dealt 1 (3 ∷ []) (5 ∷ [])) 1)
    × (dump_chance_outcome_for_seat (record { dice = hands_for 1 (3 ∷ []) (2 ∷ []) }) 1
        ≡ dump_chance_outcome_for_seat (record { dice = hands_for 1 (3 ∷ []) (5 ∷ []) }) 1)
other_hand_hidden_example = other_hand_hidden dealt 1 (3 ∷ []) (2 ∷ []) (5 ∷ [])

-- What a roll of these hands leads to.
abbrev after_roll : List ℕ → TransitionResult LiarsDiceState LiarsDiceEvent
after_roll theirs = record {
  state = record before { dice = some (hands_for 1 (3 ∷ []) theirs); round_number = 1 };
  events = Rules.roll_events before (hands_for 1 (3 ∷ []) theirs);
  result = none;
}

roll_two :
    Rules.apply_chance before (given (record { dice = hands_for 1 (3 ∷ []) (2 ∷ []) }))
    ≡ ok (after_roll (2 ∷ []))
unfolding Rules.apply_chance Rules.is_terminal Rules.result Rules.is_chance_node make_state
    showdown_fits dice_fit bids_rise hand_fits
roll_two = refl

roll_five :
    Rules.apply_chance before (given (record { dice = hands_for 1 (3 ∷ []) (5 ∷ []) }))
    ≡ ok (after_roll (5 ∷ []))
unfolding Rules.apply_chance Rules.is_terminal Rules.result Rules.is_chance_node make_state
    showdown_fits dice_fit bids_rise hand_fits
roll_five = refl

roll_events_hidden_example :
    visible_events (some 1) (after_roll (2 ∷ [])).events
    ≡ visible_events (some 1) (after_roll (5 ∷ [])).events
roll_events_hidden_example =
    roll_events_hidden before 1 (3 ∷ []) (2 ∷ []) (5 ∷ []) (after_roll (2 ∷ []))
      (after_roll (5 ∷ [])) roll_two roll_five
