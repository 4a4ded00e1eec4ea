-- ===== src/Server/RateLimits/Bounded.antt =====
-- The gauges of src/arena/server/rate_limits.py and their caps, over sequences of operations.
use agents_arena.Prelude.{
  ℕ, ◌≤◌, ◌≡◌, refl, ◌∙◌, inl, inr, Bool, true, false, some, List, [], ◌∷◌, arith, Bool-cases,
  Option-cases,
}
use native.Mathlib.Decide.{ℕ_discrete}
use mathlib.Core.Path.{subst}
use agents_arena.Core.Errors.{Result, ok, err}
use agents_arena.Server.RateLimits.{
  Dict, get, get_or, pop, RateLimiter, Caps, make_limiter, acquire_slot, release_slot, check_window,
  acquire_ip, release_ip, acquire_match_slot, release_match_slot, acquire_connection,
  release_connection, forget_match, check_match_creation, check_transcript_read, check_action,
  reserve_action, open_window_s,
}
use agents_arena.Server.RateLimits.Sliding.{IsDict}
use agents_arena.Server.RateLimits.Gauges.{
  count, pop-IsDict-get, count-pop, count-pop_other, acquire_slot-count, release_slot-count,
}

-- A gauge whose counts are at most a cap.
pub IsGauge : ℕ → Dict ℕ → Type 0
IsGauge cap d = IsDict d × ((key : ℕ) → count d key ≤ cap)

acquire_slot-IsGauge :
    (cap k : ℕ) (d d' : Dict ℕ) → IsGauge cap d → acquire_slot cap d k ≡ some d' → IsGauge cap d'
unfolding IsGauge
acquire_slot-IsGauge cap k d d' (u, b) h =
    let (u', free, there, others) = acquire_slot-count cap k d d' u h in
    (
      u',
      λ j. elim (ℕ_discrete j k) [
        | yes same ↦ rw (same, there) (omega arith)
        | no other ↦ rw (others j other) (b j)
      ],
    )

release_slot-IsGauge : (cap k : ℕ) (d : Dict ℕ) → IsGauge cap d → IsGauge cap (release_slot d k)
unfolding IsGauge
release_slot-IsGauge cap k d (u, b) =
    let (u', there, others) = release_slot-count k d u in
    (
      u',
      λ j. elim (ℕ_discrete j k) [
        | yes same ↦ rw (same, there) (omega (arith, b k))
        | no other ↦ rw (others j other) (b j)
      ],
    )

pop-IsGauge : (cap k : ℕ) (d : Dict ℕ) → IsGauge cap d → IsGauge cap (pop k d)
unfolding IsGauge
pop-IsGauge cap k d (u, b) = (
  (pop-IsDict-get k d u).0,
  λ j. elim (ℕ_discrete j k) [
    | yes same ↦ rw (same, count-pop k d u) (omega arith)
    | no other ↦ rw (count-pop_other k j d u other) (b j)
  ],
)

-- Each of the three gauges is below its cap.
pub IsGauged : RateLimiter → Type 0
IsGauged l =
    IsGauge l.caps.max_ws_per_ip l.conns_per_ip
    × IsGauge l.caps.max_conns_per_match l.conns_per_match
    × IsGauge l.caps.max_spectators_per_match l.spectators_of

acquire_ip-IsGauged : (l : RateLimiter) (ip now : ℕ) → IsGauged l → IsGauged (acquire_ip l ip now).0
unfolding acquire_ip IsGauged
acquire_ip-IsGauged l ip now (g, h, i) =
    elim (Bool-cases (check_window l.opens ip now open_window_s l.caps.max_opens_per_ip).1) [
      | inr closed ↦ rw closed (g, h, i)
      | inl opened ↦ elim (Option-cases (acquire_slot l.caps.max_ws_per_ip l.conns_per_ip ip)) [
        | inl full ↦ rw (opened, full) (g, h, i)
        | inr (d, taken) ↦
            rw (opened, taken)
              (acquire_slot-IsGauge l.caps.max_ws_per_ip ip l.conns_per_ip d g taken, h, i)
      ]
    ]

release_ip-IsGauged : (l : RateLimiter) (ip : ℕ) → IsGauged l → IsGauged (release_ip l ip)
unfolding release_ip IsGauged
release_ip-IsGauged l ip (g, h, i) =
    (release_slot-IsGauge l.caps.max_ws_per_ip ip l.conns_per_ip g, h, i)

acquire_match_slot-IsGauged :
    (l : RateLimiter) (m : ℕ) (spectator : Bool)
    → IsGauged l
    → IsGauged (acquire_match_slot l m spectator).0
unfolding acquire_match_slot IsGauged
acquire_match_slot-IsGauged l m true (g, h, i) =
    elim (Option-cases (acquire_slot l.caps.max_spectators_per_match l.spectators_of m)) [
      | inl full ↦ rw (full, acquire_match_slot) (g, h, i)
      | inr (d, taken) ↦
          rw (taken, acquire_match_slot)
            (g, h, acquire_slot-IsGauge l.caps.max_spectators_per_match m l.spectators_of d i taken)
    ]
acquire_match_slot-IsGauged l m false (g, h, i) =
    elim (Option-cases (acquire_slot l.caps.max_conns_per_match l.conns_per_match m)) [
      | inl full ↦ rw (full, acquire_match_slot) (g, h, i)
      | inr (d, taken) ↦
          rw (taken, acquire_match_slot)
            (g, acquire_slot-IsGauge l.caps.max_conns_per_match m l.conns_per_match d h taken, i)
    ]

release_match_slot-IsGauged :
    (l : RateLimiter) (m : ℕ) (spectator : Bool)
    → IsGauged l
    → IsGauged (release_match_slot l m spectator)
unfolding release_match_slot IsGauged
release_match_slot-IsGauged l m true (g, h, i) =
    (g, h, release_slot-IsGauge l.caps.max_spectators_per_match m l.spectators_of i)
release_match_slot-IsGauged l m false (g, h, i) =
    (g, release_slot-IsGauge l.caps.max_conns_per_match m l.conns_per_match h, i)

acquire_connection-IsGauged :
    (l : RateLimiter) (ip m : ℕ) (spectator : Bool) (now : ℕ)
    → IsGauged l
    → IsGauged (acquire_connection l ip m spectator now).0
unfolding acquire_connection
acquire_connection-IsGauged l ip m spectator now g =
    let g₁ = acquire_ip-IsGauged l ip now g in
    let g₂ = acquire_match_slot-IsGauged (acquire_ip l ip now).0 m spectator g₁ in
    elim (Option-cases (acquire_ip l ip now).1) [
      | inr (scope, closed) ↦ rw (closed, acquire_connection) g₁
      | inl opened ↦
          elim (Option-cases (acquire_match_slot (acquire_ip l ip now).0 m spectator).1) [
            | inl taken ↦ rw (opened, taken, acquire_connection) g₂
            | inr (scope, full) ↦
                rw (opened, full, acquire_connection)
                  (release_ip-IsGauged (acquire_match_slot (acquire_ip l ip now).0 m spectator).0 ip
                    g₂)
          ]
    ]

-- A call of one of the limiter's operations, with the moment at which it is made.
pub data LimiterCall : Type 0 where
  open_ip : (ip now : ℕ) → LimiterCall
  close_ip : (ip : ℕ) → LimiterCall
  open_slot : (match_id : ℕ) (spectator : Bool) → LimiterCall
  close_slot : (match_id : ℕ) (spectator : Bool) → LimiterCall
  open_connection : (ip match_id : ℕ) (spectator : Bool) (now : ℕ) → LimiterCall
  close_connection : (ip match_id : ℕ) (spectator : Bool) → LimiterCall
  create_match : (ip now : ℕ) → LimiterCall
  read_transcript : (ip now : ℕ) → LimiterCall
  send_action : (match_id now : ℕ) → LimiterCall
  reserve : (match_id now : ℕ) → LimiterCall
  forget : (match_id : ℕ) → LimiterCall

-- An exception of `reserve_action` leaves the gauges alone.
abbrev reserved_limiter : RateLimiter → Result (RateLimiter × ℕ) → RateLimiter
reserved_limiter l (err e) = l
reserved_limiter l (ok (l', wait)) = l'

unfoldable pub limiter_step : RateLimiter → LimiterCall → RateLimiter
limiter_step l (open_ip ip now) = (acquire_ip l ip now).0
limiter_step l (close_ip ip) = release_ip l ip
limiter_step l (open_slot m spectator) = (acquire_match_slot l m spectator).0
limiter_step l (close_slot m spectator) = release_match_slot l m spectator
limiter_step l (open_connection ip m spectator now) = (acquire_connection l ip m spectator now).0
limiter_step l (close_connection ip m spectator) = release_connection l ip m spectator
limiter_step l (create_match ip now) = (check_match_creation l ip now).0
limiter_step l (read_transcript ip now) = (check_transcript_read l ip now).0
limiter_step l (send_action m now) = (check_action l m now).0
limiter_step l (reserve m now) = reserved_limiter l (reserve_action l m now)
limiter_step l (forget m) = forget_match l m

unfoldable pub run_limiter : RateLimiter → List LimiterCall → RateLimiter
unfolding limiter_step
run_limiter l [] = l
run_limiter l (call ∷ calls) = run_limiter (limiter_step l call) calls

check_action-IsGauged :
    (l : RateLimiter) (m now : ℕ) → IsGauged l → IsGauged (check_action l m now).0
unfolding check_action IsGauged
check_action-IsGauged l m now g = ground arith

reserve_action-same :
    (l : RateLimiter) (m now : ℕ)
    → ((reserved_limiter l (reserve_action l m now)).caps ≡ l.caps)
      × ((reserved_limiter l (reserve_action l m now)).conns_per_ip ≡ l.conns_per_ip)
      × ((reserved_limiter l (reserve_action l m now)).conns_per_match ≡ l.conns_per_match)
      × ((reserved_limiter l (reserve_action l m now)).spectators_of ≡ l.spectators_of)
unfolding reserve_action reserved_limiter
reserve_action-same l m now = ground arith

reserve_action-IsGauged :
    (l : RateLimiter) (m now : ℕ)
    → IsGauged l
    → IsGauged (reserved_limiter l (reserve_action l m now))
unfolding IsGauged
reserve_action-IsGauged l m now g =
    let (a, b, c, d) = reserve_action-same l m now in rw (a, b, c, d) g

limiter_step-IsGauged :
    (l : RateLimiter) (call : LimiterCall) → IsGauged l → IsGauged (limiter_step l call)
unfolding limiter_step release_connection check_match_creation check_transcript_read forget_match
    IsGauged
limiter_step-IsGauged l (open_ip ip now) g = acquire_ip-IsGauged l ip now g
limiter_step-IsGauged l (close_ip ip) g = release_ip-IsGauged l ip g
limiter_step-IsGauged l (open_slot m spectator) g = acquire_match_slot-IsGauged l m spectator g
limiter_step-IsGauged l (close_slot m spectator) g = release_match_slot-IsGauged l m spectator g
limiter_step-IsGauged l (open_connection ip m spectator now) g =
    acquire_connection-IsGauged l ip m spectator now g
limiter_step-IsGauged l (close_connection ip m spectator) g =
    release_match_slot-IsGauged (release_ip l ip) m spectator (release_ip-IsGauged l ip g)
limiter_step-IsGauged l (create_match ip now) g = g
limiter_step-IsGauged l (read_transcript ip now) g = g
limiter_step-IsGauged l (send_action m now) g = check_action-IsGauged l m now g
limiter_step-IsGauged l (reserve m now) g = reserve_action-IsGauged l m now g
limiter_step-IsGauged l (forget m) (g, h, i) = (
  g,
  pop-IsGauge l.caps.max_conns_per_match m l.conns_per_match h,
  pop-IsGauge l.caps.max_spectators_per_match m l.spectators_of i,
)

run_limiter-IsGauged :
    (l : RateLimiter) (calls : List LimiterCall) → IsGauged l → IsGauged (run_limiter l calls)
unfolding run_limiter
run_limiter-IsGauged l [] g = g
run_limiter-IsGauged l (call ∷ calls) g =
    run_limiter-IsGauged (limiter_step l call) calls (limiter_step-IsGauged l call g)

make_limiter-IsGauged : (caps : Caps) → IsGauged (make_limiter caps)
unfolding make_limiter IsGauged IsGauge IsDict count get_or get
make_limiter-IsGauged caps =
    ((tt, λ k. omega arith), (tt, λ k. omega arith), (tt, λ k. omega arith))

limiter_step-caps : (l : RateLimiter) (call : LimiterCall) → (limiter_step l call).caps ≡ l.caps
unfolding limiter_step acquire_ip release_ip acquire_match_slot release_match_slot
    acquire_connection release_connection check_match_creation check_transcript_read check_action
    forget_match
limiter_step-caps l (reserve m now) = (reserve_action-same l m now).0
limiter_step-caps l call = ground arith

run_limiter-caps :
    (l : RateLimiter) (calls : List LimiterCall) → (run_limiter l calls).caps ≡ l.caps
unfolding run_limiter
run_limiter-caps l [] = refl
run_limiter-caps l (call ∷ calls) =
    run_limiter-caps (limiter_step l call) calls ∙ limiter_step-caps l call

-- Whatever sequence of operations a new limiter has gone through, the count of every gauge, by address
-- and by match, of seats and of spectators, is at most its cap.
pub run_limiter-bounded :
    (caps : Caps) (calls : List LimiterCall) (key : ℕ)
    → (count (run_limiter (make_limiter caps) calls).conns_per_ip key ≤ caps.max_ws_per_ip)
      × (count (run_limiter (make_limiter caps) calls).conns_per_match key
          ≤ caps.max_conns_per_match)
      × (count (run_limiter (make_limiter caps) calls).spectators_of key
          ≤ caps.max_spectators_per_match)
unfolding IsGauged IsGauge make_limiter
run_limiter-bounded caps calls key =
    let g = run_limiter-IsGauged (make_limiter caps) calls (make_limiter-IsGauged caps) in
    let same = run_limiter-caps (make_limiter caps) calls in
    (
      subst (λ c. count (run_limiter (make_limiter caps) calls).conns_per_ip key ≤ c.max_ws_per_ip)
          same (g.0.1 key),
      subst
          (λ c.
            count (run_limiter (make_limiter caps) calls).conns_per_match key
            ≤ c.max_conns_per_match)
          same (g.1.1 key),
      subst
          (λ c.
            count (run_limiter (make_limiter caps) calls).spectators_of key
            ≤ c.max_spectators_per_match)
          same (g.2.1 key),
    )
