-- ===== src/Runtime/Session/Lifecycle.antt =====
-- The states of the lifecycle of src/arena/runtime/session.py, and the parts of its operations.
use agents_arena.Prelude.{
  ℕ, ◌+◌, ◌≡◌, refl, inl, inr, Bool, true, false, Option, none, some, List, [], ◌∷◌, ◌++◌, map,
  arith, Bool-cases, if◌then◌else◌,
}
use agents_arena.Core.Errors.{Error, Result, ok, err, is_core_error}
use agents_arena.Core.Engine.{GameTypes, GameDefinition}
use agents_arena.Match.LocalMatch.{LocalMatch}
use agents_arena.Runtime.Session.{
  RuntimeLifecycle, created, running, finished, aborted, AbortReason, AbortMetadata, RuntimeEvent,
  match_started, match_finished, turn_requested, turn_accepted, match_aborted, MatchSession,
  is_over, finish_session, abort_with, started_session, after_turn, settle_turn, core_error,
  adapter_error,
}

-- Whether an event closes the match.
abbrev pub closes : RuntimeEvent → ℕ
closes match_finished = 1
closes (match_aborted abort) = 1
closes _ = 0

-- How many events of a log close the match.
unfoldable pub closings : List RuntimeEvent → ℕ
closings [] = 0
closings (event ∷ events) = closes event + closings events

pub closings-append : (xs ys : List RuntimeEvent) → closings (xs ++ ys) ≡ closings xs + closings ys
unfolding closings
closings-append [] ys = ground arith
closings-append (x ∷ xs) ys = ground (arith, closings-append xs ys)

module _ {T : GameTypes} (definition : GameDefinition T) where
  open definition use {rules_engine as rules}

  -- The match of a session, if there is one, is over.
  unfoldable pub is_played_out : Option (LocalMatch T) → Bool
  is_played_out none = false
  is_played_out (some m) = rules.is_terminal m.rules_engine m.state

  abbrev pub has_match : Option (LocalMatch T) → Bool
  has_match none = false
  has_match (some m) = true

  abbrev pub has_abort : Option AbortMetadata → Bool
  has_abort none = false
  has_abort (some a) = true

  -- What each state of the lifecycle says of the match, of the abort, and of the number of events that
  -- close the match.
  unfoldable pub Fits : RuntimeLifecycle → Option (LocalMatch T) → Option AbortMetadata → ℕ → Type 0
  unfolding is_played_out
  Fits created m abort n = (m ≡ none) × (abort ≡ none) × (n ≡ 0)
  Fits running m abort n = (has_match m ≡ true) × (abort ≡ none) × (n ≡ 0)
  Fits finished m abort n = (is_played_out m ≡ true) × (abort ≡ none) × (n ≡ 1)
  Fits aborted m abort n = (has_abort abort ≡ true) × (n ≡ 1)

  unfoldable pub IsSound : MatchSession T → Type 0
  IsSound s = Fits s.lifecycle s.local_match s.abort (closings s.events)

  -- A session that is not over has no event that closes it.
  pub open_log :
      (s : MatchSession T)
      → IsSound s
      → is_over s.lifecycle ≡ false
      → (closings s.events ≡ 0) × (s.abort ≡ none)
  unfolding IsSound Fits
  open_log s v h = ground arith

  pub abort_with-IsSound :
      (s : MatchSession T) (reason : AbortReason) (cause : Option Error)
      → closings s.events ≡ 0
      → IsSound (abort_with s reason cause)
  unfolding IsSound Fits abort_with closings
  abort_with-IsSound s reason cause h = ground (
    arith,
    closings-append s.events (match_aborted (record { reason = reason; cause = cause }) ∷ []),
  )

  pub started_session-IsSound :
      (s : MatchSession T) (m : LocalMatch T)
      → closings s.events ≡ 0
      → s.abort ≡ none
      → IsSound (started_session definition s m)
  unfolding IsSound Fits started_session closings is_played_out
  started_session-IsSound s m h a = elim (Bool-cases (rules.is_terminal m.rules_engine m.state)) [
    | inl over ↦ rw over (
        (
          over,
          a,
          ground (
            arith,
            closings-append s.events (match_started ∷ []),
            closings-append (s.events ++ match_started ∷ []) (match_finished ∷ []),
          ),
        ))
    | inr on ↦ rw on ((refl, a, ground (arith, closings-append s.events (match_started ∷ []))))
  ]

  after_turn-IsSound :
      (s : MatchSession T) (m : LocalMatch T) (accepted : List RuntimeEvent)
      → closings s.events ≡ 0
      → closings accepted ≡ 0
      → s.abort ≡ none
      → s.lifecycle ≡ running
      → IsSound (after_turn definition s m accepted)
  unfolding IsSound Fits after_turn finish_session closings is_played_out
  after_turn-IsSound s m accepted h c a r =
      elim (Bool-cases (rules.is_terminal m.rules_engine m.state)) [
        | inl over ↦ rw over (
            (
              over,
              a,
              ground (
                arith,
                closings-append s.events accepted,
                closings-append (s.events ++ accepted) (match_finished ∷ []),
              ),
            ))
        | inr on ↦ rw (on, r) ((refl, a, ground (arith, closings-append s.events accepted)))
      ]

  pub settle_turn-IsSound :
      (s : MatchSession T) (turn : Result (LocalMatch T)) (accepted : List RuntimeEvent)
      → closings s.events ≡ 0
      → closings accepted ≡ 0
      → s.abort ≡ none
      → s.lifecycle ≡ running
      → IsSound (settle_turn definition s turn accepted)
  unfolding settle_turn
  settle_turn-IsSound s (ok m) accepted h c a r = after_turn-IsSound s m accepted h c a r
  settle_turn-IsSound s (err e) accepted h c a r =
      abort_with-IsSound s (if is_core_error e then core_error else adapter_error) (some e) h

  pub closings-requested : (seats : List ℕ) → closings (map turn_requested seats) ≡ 0
  unfolding closings
  closings-requested [] = refl
  closings-requested (seat ∷ seats) = ground (arith, closings-requested seats)

  pub closings-accepted :
      (turn : ℕ) (seats : List ℕ) → closings (map (λ seat. turn_accepted seat turn) seats) ≡ 0
  unfolding closings
  closings-accepted turn [] = refl
  closings-accepted turn (seat ∷ seats) = ground (arith, closings-accepted turn seats)
