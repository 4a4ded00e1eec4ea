-- ===== src/Runtime/Session/Calls.antt =====
-- Sequences of calls of the coordinator of src/arena/runtime/session.py. The server and the command line
-- call its methods directly, also the two halves of a turn, request_turn and complete_turn.
use mathlib.Core.Path.{subst}
use agents_arena.Prelude.{
  ℕ, zero, suc, ◌≡◌, refl, String, Bool, true, ◌&&◌, ◌==◌, Option, none, List, [], ◌∷◌, arith, inl,
  inr, Bool-cases,
}
use agents_arena.Core.Errors.{Result, ok, err, ◌>>=◌, >>=-eq-ok}
use agents_arena.Core.Engine.{GameTypes, SeatMap, GameDefinition}
use agents_arena.Adapters.InProcess.{PayloadPolicy}
use agents_arena.Runtime.Session.{
  AbortReason, RuntimeEvent, turn_requested, PlayerRecord, MatchSession, is_running, is_created,
  abort_session, create_session, start_session, request_turn, complete_turn, record_runtime_event,
  step_session, run_steps, run_session,
}
use agents_arena.Runtime.Session.Lifecycle.{closes, closings, IsSound, Fits}
use agents_arena.Runtime.Session.Sound.{
  recorded-IsSound, request_turn-event, complete_turn-IsSound, step_session-IsSound,
  start_session-IsSound, abort_session-IsSound,
}

-- A call of a method of the coordinator, or of record_runtime_event: starting, with a seed or with one
-- that is minted; a step; the two halves of a turn; a run, with its number of steps; an abort.
pub data SessionCall : Type 0 where
  start_call : (seed : Option ℕ) (minted : ℕ) → SessionCall
  step_call request_call : SessionCall
  complete_call : (seat : ℕ) → SessionCall
  run_call : (steps minted : ℕ) → SessionCall
  abort_call : (reason : AbortReason) → SessionCall
  record_call : (event : RuntimeEvent) → SessionCall

module _ {T : GameTypes} (definition : GameDefinition T) where
  unfoldable pub session_step : MatchSession T → SessionCall → Result (MatchSession T)
  session_step s (start_call seed minted) = start_session definition s seed minted
  session_step s step_call = step_session definition s
  session_step s request_call = do (asked, seat) ← request_turn definition s; ok asked
  session_step s (complete_call seat) = complete_turn definition s seat
  session_step s (run_call steps minted) = run_session definition steps minted s
  session_step s (abort_call reason) = abort_session s reason
  session_step s (record_call event) = ok (record_runtime_event s event)

  unfoldable pub run_calls : MatchSession T → List SessionCall → Result (MatchSession T)
  unfolding session_step
  run_calls s [] = ok s
  run_calls s (call ∷ calls) = do next ← session_step s call; run_calls next calls

  -- complete_turn does not ask for a running session, and record_runtime_event takes any event.
  unfoldable pub fits_lifecycle : MatchSession T → SessionCall → Bool
  fits_lifecycle s (complete_call seat) = is_running s.lifecycle
  fits_lifecycle s (record_call event) = closes event == 0
  fits_lifecycle s _ = true

  -- Every turn is completed while the session is running, and no event that is recorded closes it.
  unfoldable pub in_order : MatchSession T → List SessionCall → Bool
  unfolding session_step fits_lifecycle
  in_order s [] = true
  in_order s (call ∷ calls) =
      fits_lifecycle s call
      && elim (session_step s call) [ ok next ↦ in_order next calls | err e ↦ true ]

  run_steps-IsSound :
      (steps : ℕ) (s s' : MatchSession T)
      → IsSound definition s
      → run_steps definition steps s ≡ ok s'
      → IsSound definition s'
  unfolding run_steps
  run_steps-IsSound zero s s' v h = elim (Bool-cases (is_running s.lifecycle)) [
    | inl on ↦ ground arith
    | inr off ↦ subst (IsSound definition) (cc (rw off at h)) v
  ]
  run_steps-IsSound (suc steps) s s' v h = elim (Bool-cases (is_running s.lifecycle)) [
    | inl on ↦
        let (next, first, rest) =
          >>=-eq-ok (step_session definition s) (run_steps definition steps) (rw on at h) in
        run_steps-IsSound steps next s' (step_session-IsSound definition s next v first) rest
    | inr off ↦ subst (IsSound definition) (cc (rw off at h)) v
  ]

  run_session-IsSound :
      (steps minted : ℕ) (s s' : MatchSession T)
      → IsSound definition s
      → run_session definition steps minted s ≡ ok s'
      → IsSound definition s'
  unfolding run_session
  run_session-IsSound steps minted s s' v h = elim (Bool-cases (is_created s.lifecycle)) [
    | inl new ↦
        let (current, started, rest) =
          >>=-eq-ok (start_session definition s none minted) (run_steps definition steps)
            (rw new at h) in
        run_steps-IsSound steps current s'
          (start_session-IsSound definition s current none minted v started) rest
    | inr old ↦ run_steps-IsSound steps s s' v (rw old at h)
  ]

  session_step-IsSound :
      (s s' : MatchSession T) (call : SessionCall)
      → IsSound definition s
      → fits_lifecycle s call ≡ true
      → session_step s call ≡ ok s'
      → IsSound definition s'
  unfolding session_step fits_lifecycle
  session_step-IsSound s s' (start_call seed minted) v f h =
      start_session-IsSound definition s s' seed minted v h
  session_step-IsSound s s' step_call v f h = step_session-IsSound definition s s' v h
  session_step-IsSound s s' request_call v f h =
      let ((asked, seat), requested, h₁) = >>=-eq-ok (request_turn definition s) _ h in
      let same : record_runtime_event s (turn_requested seat) ≡ asked =
        request_turn-event definition s asked seat requested in
      subst (IsSound definition) (cc (same, h₁))
        (recorded-IsSound definition s (turn_requested seat) v refl)
  session_step-IsSound s s' (complete_call seat) v f h =
      complete_turn-IsSound definition s s' seat v (ground arith) h
  session_step-IsSound s s' (run_call steps minted) v f h =
      run_session-IsSound steps minted s s' v h
  session_step-IsSound s s' (abort_call reason) v f h =
      abort_session-IsSound definition s s' reason v h
  session_step-IsSound s s' (record_call event) v f h =
      subst (IsSound definition) (cc h) (recorded-IsSound definition s event v (ground arith))

  in_order-cons :
      (s next : MatchSession T) (call : SessionCall) (calls : List SessionCall)
      → session_step s call ≡ ok next
      → in_order s (call ∷ calls) ≡ true
      → (fits_lifecycle s call ≡ true) × (in_order next calls ≡ true)
  unfolding in_order
  in_order-cons s next call calls h f =
      let both : (fits_lifecycle s call && in_order next calls) ≡ true = rw h at f in ground arith

  calls-IsSound :
      (s s' : MatchSession T) (calls : List SessionCall)
      → IsSound definition s
      → in_order s calls ≡ true
      → run_calls s calls ≡ ok s'
      → IsSound definition s'
  unfolding run_calls
  calls-IsSound s s' [] v f h = subst (IsSound definition) (cc) v
  calls-IsSound s s' (call ∷ calls) v f h =
      let (next, first, rest) = >>=-eq-ok (session_step s call) (λ next. run_calls next calls) h in
      let (fits, later) = in_order-cons s next call calls first f in
      calls-IsSound next s' calls (session_step-IsSound s next call v fits first) later rest

  create_session-IsSound :
      (config : T.Config) (players : List PlayerRecord) (bindings : SeatMap (PayloadPolicy T.Json))
      (match_id : String) (s : MatchSession T)
      → create_session config players bindings match_id ≡ ok s
      → IsSound definition s
  unfolding create_session IsSound Fits closings
  create_session-IsSound config players bindings match_id s h = ground arith

  -- A created session stays well formed whatever methods are called on it, where complete_turn is called
  -- while it is running and no event that closes a match is recorded by record_runtime_event: a running
  -- one has a match, a finished one has a match that is over, an aborted one says why, and exactly the
  -- sessions that are over have one event that closes the match, the others none.
  pub run_calls-IsSound :
      (config : T.Config) (players : List PlayerRecord) (bindings : SeatMap (PayloadPolicy T.Json))
      (match_id : String) (s₀ s : MatchSession T) (calls : List SessionCall)
      → create_session config players bindings match_id ≡ ok s₀
      → in_order s₀ calls ≡ true
      → run_calls s₀ calls ≡ ok s
      → IsSound definition s
  run_calls-IsSound config players bindings match_id s₀ s calls h ordered played =
      calls-IsSound s₀ s calls (create_session-IsSound config players bindings match_id s₀ h)
        ordered played
