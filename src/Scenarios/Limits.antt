-- ===== src/Scenarios/Limits.antt =====
-- Runs of a limiter with small caps.
use agents_arena.Prelude.{ℕ, ◌≤◌, ◌≡◌, ◌≢◌, refl, true, false, none, List, [], ◌∷◌, arith}
use agents_arena.Core.Errors.{ok}
use agents_arena.Server.RateLimits.{
  Caps, RateLimiter, get, make_limiter, check_match_creation, check_transcript_read, check_window,
  window, acquire_ip, acquire_match_slot, acquire_connection, acquire_slot, release_connection,
  match_creation_window_s, read_window_s, action_window_s, match_creations_per_ip,
  transcript_reads_per_ip,
}
use agents_arena.Server.RateLimits.Sliding.{IsDict}
use agents_arena.Server.RateLimits.Exact.{answers, remembered_answers, IsClock, limiter-exact}
use agents_arena.Server.RateLimits.Gauges.{count}
use agents_arena.Server.RateLimits.Bounded.{
  LimiterCall, open_connection, close_connection, forget, run_limiter, run_limiter-bounded,
}
use agents_arena.Server.RateLimits.Connections.{
  IsKeyed, IsSameGauges, acquire_connection-refused, release-acquire_connection,
}
use agents_arena.Server.RateLimits.Reserve.{AreMoments, reserved, reserve_action-spaced}
use agents_arena.Server.RateLimits.Slots.{are_apart, drop}

abbrev small : Caps
small = record {
  max_ws_per_ip = 2;
  max_creations_per_ip = 2;
  max_actions_per_match = 2;
  max_conns_per_match = 1;
  max_spectators_per_match = 1;
  max_opens_per_ip = 3;
  max_reads_per_ip = 2;
}

-- Three events of one address in a minute, and a fourth after it.
abbrev events : List (ℕ × ℕ)
events = (5, 0) ∷ (5, 10) ∷ (5, 20) ∷ (5, 60005) ∷ []

events-IsClock : IsClock 0 events
unfolding IsClock
events-IsClock = (omega arith, (omega arith, (omega arith, (omega arith, tt))))

limiter-exact_example :
    (answers check_match_creation (make_limiter small) events
      ≡ remembered_answers match_creation_window_s 2 match_creations_per_ip [] events)
    × (answers check_transcript_read (make_limiter small) events
        ≡ remembered_answers read_window_s 2 transcript_reads_per_ip [] events)
limiter-exact_example = limiter-exact small 0 events events-IsClock

abbrev connections : List LimiterCall
connections =
    open_connection 5 1 false 0
    ∷ open_connection 5 1 false 1
    ∷ open_connection 5 2 true 2
    ∷ close_connection 5 1 false
    ∷ forget 2
    ∷ []

run_limiter-bounded_example :
    (count (run_limiter (make_limiter small) connections).conns_per_ip 5 ≤ 2)
    × (count (run_limiter (make_limiter small) connections).conns_per_match 5 ≤ 1)
    × (count (run_limiter (make_limiter small) connections).spectators_of 5 ≤ 1)
run_limiter-bounded_example = run_limiter-bounded small connections 5

-- A match whose one seat slot is taken.
abbrev busy : RateLimiter
busy = record (make_limiter small) { conns_per_match = (1, 1) ∷ [] }

busy-IsKeyed : IsKeyed busy
unfolding IsKeyed IsDict get make_limiter
busy-IsKeyed = (tt, (refl, tt), tt)

turned_away : (acquire_connection busy 5 1 false 0).1 ≢ none
unfolding acquire_connection acquire_ip acquire_match_slot acquire_slot check_window window
    make_limiter
turned_away h = cc

acquire_connection-refused_example : IsSameGauges (acquire_connection busy 5 1 false 0).0 busy
acquire_connection-refused_example =
    acquire_connection-refused busy 5 1 false 0 busy-IsKeyed turned_away

let_in : (acquire_connection busy 5 2 false 0).1 ≡ none
unfolding acquire_connection acquire_ip acquire_match_slot acquire_slot check_window window
    make_limiter
let_in = refl

release-acquire_connection_example :
    IsSameGauges (release_connection (acquire_connection busy 5 2 false 0).0 5 2 false) busy
release-acquire_connection_example = release-acquire_connection busy 5 2 false 0 busy-IsKeyed let_in

-- Four actions at once.
abbrev at_once : List ℕ
at_once = 100 ∷ 100 ∷ 100 ∷ 101 ∷ []

at_once-AreMoments : AreMoments 0 at_once
unfolding AreMoments
at_once-AreMoments = (omega arith, (omega arith, (omega arith, (omega arith, tt))))

reserve_action-spaced_example :
    (all : List ℕ) × (reserved busy 1 at_once ≡ ok all)
    × (are_apart action_window_s all (drop 2 all) ≡ true)
unfolding make_limiter get
reserve_action-spaced_example =
    reserve_action-spaced busy 1 0 at_once (omega arith) refl at_once-AreMoments
