-- ===== src/Runtime/Session/Log.antt =====
-- The events that the operations of src/arena/runtime/session.py append.
use mathlib.Core.Path.{subst}
use agents_arena.Prelude.{
  ℕ, zero, suc, append-nil, append_assoc, ◌+◌, ◌≡◌, refl, sym, ap, ◌∙◌, inl, inr, Bool, true, false,
  not, Option, none, some, List, [], ◌∷◌, ◌++◌, map, arith, length, Bool-cases, Option-cases,
  if◌then◌else◌,
}
use agents_arena.Core.Errors.{
  Result, ok, err, >>=-eq-ok, raise_if, is_core_error, runtime_state_error,
}
use agents_arena.Core.Engine.{GameTypes, GameDefinition}
use agents_arena.Core.Simultaneous.{acting_seats, is_joint_node, get_seat, pick}
use agents_arena.Match.LocalMatch.{LocalMatch, start_match}
use agents_arena.Adapters.InProcess.{apply_payload_policy_turn, apply_payload_policy_joint_turn}
use agents_arena.Runtime.Session.{
  AbortReason, RuntimeEvent, match_started, match_finished, turn_requested, turn_accepted,
  MatchSession, is_created, is_running, run_steps, run_session, is_over, finish_session, abort_with,
  record_runtime_event, abort_session, started_session, start_session, running_match, request_turn,
  after_turn, settle_turn, complete_turn, step_joint, request_and_complete, take_turn, step_session,
  missing_policy, core_error, runtime_error,
}
use agents_arena.Runtime.Session.Sound.{
  request_turn-event, result_cases, complete_turn-unbound, complete_turn-bound,
}
use agents_arena.Runtime.Session.Calls.{
  SessionCall, start_call, step_call, request_call, complete_call, run_call, abort_call,
  record_call, session_step, run_calls,
}

-- The first log, with more after it.
abbrev Appends : List RuntimeEvent → List RuntimeEvent → Type 0
Appends before after = (more : List RuntimeEvent) × (after ≡ before ++ more)

Appends-trans : (a b c : List RuntimeEvent) → Appends a b → Appends b c → Appends a c
Appends-trans a b c (m, p) (n, q) = (m ++ n, q ∙ ap (λ x. x ++ n) p ∙ append_assoc a m n)

module _ {T : GameTypes} (definition : GameDefinition T) where
  open definition use {rules_engine as rules}

  -- The log of the session that was returned.
  returned :
      (before : List RuntimeEvent) (t t' : MatchSession T)
      → t ≡ t'
      → Appends before t.events
      → Appends before t'.events
  returned before t t' same a = subst (λ (t : MatchSession T). Appends before t.events) same a

  settle_turn-Appends :
      (s : MatchSession T) (turn : Result (LocalMatch T)) (accepted : List RuntimeEvent)
      → Appends s.events (settle_turn definition s turn accepted).events
  unfolding settle_turn after_turn finish_session abort_with
  settle_turn-Appends s (err e) accepted = (_, refl)
  settle_turn-Appends s (ok m) accepted =
      elim (Bool-cases (rules.is_terminal m.rules_engine m.state)) [
        | inl over ↦ (
          accepted ++ match_finished ∷ [],
          rw over (append_assoc s.events accepted (match_finished ∷ [])),
        )
        | inr on ↦ (accepted, rw on refl)
      ]

  complete_turn-Appends :
      (s s' : MatchSession T) (seat : ℕ)
      → complete_turn definition s seat ≡ ok s'
      → Appends s.events s'.events
  unfolding complete_turn abort_with
  complete_turn-Appends s s' seat h = elim (Option-cases s.local_match) [
    | inl absent ↦ ground arith
    | inr (m, found) ↦ elim (result_cases (get_seat seat s.policy_bindings)) [
      | inl (e, missing) ↦
          subst (λ (t : MatchSession T). Appends s.events t.events)
            (complete_turn-unbound definition s s' seat m e found missing h) (_, refl)
      | inr (policy, bound) ↦
          subst (λ (t : MatchSession T). Appends s.events t.events)
            (complete_turn-bound definition s s' seat m policy found bound h)
            (settle_turn-Appends s (apply_payload_policy_turn definition m policy)
              (turn_accepted seat (length m.turns + 1) ∷ []))
    ]
  ]

  step_joint-Appends :
      (s s' : MatchSession T) (m : LocalMatch T)
      → step_joint definition s m ≡ ok s'
      → Appends s.events s'.events
  unfolding step_joint abort_with
  step_joint-Appends s s' m h =
      let (seats, acting, h₁) = >>=-eq-ok (acting_seats rules m.rules_engine m.state) _ h in
      let asked : MatchSession T = record s { events = s.events ++ map turn_requested seats } in
      elim (result_cases (pick seats s.policy_bindings)) [
        | inl (e, missing) ↦
            returned s.events (abort_with asked missing_policy none) s' (cc (rw missing at h₁)) (
              Appends-trans s.events asked.events (abort_with asked missing_policy none).events
                (_, refl) (_, refl))
        | inr (policies, found) ↦
            let accepted = map (λ seat. turn_accepted seat (length m.turns + 1)) seats in
            let turn = apply_payload_policy_joint_turn definition m policies in
            returned s.events (settle_turn definition asked turn accepted) s' (cc (rw found at h₁))
              (Appends-trans s.events asked.events _ (_, refl)
                (settle_turn-Appends asked turn accepted))
      ]

  request_turn-Appends :
      (s asked : MatchSession T) (seat : ℕ)
      → request_turn definition s ≡ ok (asked, seat)
      → Appends s.events asked.events
  unfolding record_runtime_event
  request_turn-Appends s asked seat requested = (
    turn_requested seat ∷ [],
    sym (
        ap (λ (t : MatchSession T). t.events)
          (request_turn-event definition s asked seat requested)),
  )

  request_and_complete-Appends :
      (s s' : MatchSession T)
      → request_and_complete definition s ≡ ok s'
      → Appends s.events s'.events
  unfolding request_and_complete
  request_and_complete-Appends s s' h =
      let ((asked, seat), requested, h₁) = >>=-eq-ok (request_turn definition s) _ h in
      Appends-trans s.events asked.events s'.events (request_turn-Appends s asked seat requested)
        (complete_turn-Appends asked s' seat h₁)

  take_turn-Appends :
      (s s' : MatchSession T) (m : LocalMatch T) (joint : Bool)
      → take_turn definition s m joint ≡ ok s'
      → Appends s.events s'.events
  unfolding take_turn
  take_turn-Appends s s' m true h = step_joint-Appends s s' m h
  take_turn-Appends s s' m false h = request_and_complete-Appends s s' h

  step_session-Appends :
      (s s' : MatchSession T) → step_session definition s ≡ ok s' → Appends s.events s'.events
  unfolding step_session finish_session take_turn
  step_session-Appends s s' h =
      let (m, there, h₁) = >>=-eq-ok (running_match definition s) _ h in
      elim (Bool-cases (rules.is_terminal m.rules_engine m.state)) [
        | inl over ↦ (match_finished ∷ [], ground arith)
        | inr on ↦
            let (joint, asked, h₂) =
              >>=-eq-ok (is_joint_node rules m.rules_engine m.state) (take_turn definition s m)
                (rw on at h₁) in
            take_turn-Appends s s' m joint h₂
      ]

  started_session-Appends :
      (s : MatchSession T) (m : LocalMatch T)
      → Appends s.events (started_session definition s m).events
  unfolding started_session
  started_session-Appends s m = elim (Bool-cases (rules.is_terminal m.rules_engine m.state)) [
    | inl over ↦ (
      match_started ∷ match_finished ∷ [],
      rw over (append_assoc s.events (match_started ∷ []) (match_finished ∷ [])),
    )
    | inr on ↦ (match_started ∷ [], rw on refl)
  ]

  start_session-Appends :
      (s s' : MatchSession T) (seed : Option ℕ) (minted : ℕ)
      → start_session definition s seed minted ≡ ok s'
      → Appends s.events s'.events
  unfolding start_session started_session abort_with
  start_session-Appends s s' seed minted h =
      let (u, fresh, h₁) =
        >>=-eq-ok (raise_if (not (is_created s.lifecycle)) runtime_state_error) _ h in
      elim (result_cases (start_match definition s.config seed minted)) [
        | inl (e, failed) ↦
            returned s.events
              (abort_with s (if is_core_error e then core_error else runtime_error) (some e)) s'
              (cc (rw failed at h₁)) (_, refl)
        | inr (m, opened) ↦
            returned s.events (started_session definition s m) s' (cc (rw opened at h₁))
              (started_session-Appends s m)
      ]

  abort_session-Appends :
      (s s' : MatchSession T) (reason : AbortReason)
      → abort_session s reason ≡ ok s'
      → Appends s.events s'.events
  unfolding abort_session abort_with
  abort_session-Appends s s' reason h =
      let (u, fresh, h₁) = >>=-eq-ok (raise_if (is_over s.lifecycle) runtime_state_error) _ h in
      returned s.events (abort_with s reason none) s' (cc h₁) (_, refl)

  run_steps-Appends :
      (steps : ℕ) (s s' : MatchSession T)
      → run_steps definition steps s ≡ ok s'
      → Appends s.events s'.events
  unfolding run_steps
  run_steps-Appends zero s s' h =
      returned s.events s s' (ground arith) ([], sym (append-nil s.events))
  run_steps-Appends (suc steps) s s' h = elim (Bool-cases (is_running s.lifecycle)) [
    | inl on ↦
        let (next, first, rest) =
          >>=-eq-ok (step_session definition s) (run_steps definition steps) (rw on at h) in
        Appends-trans s.events next.events s'.events (step_session-Appends s next first)
          (run_steps-Appends steps next s' rest)
    | inr off ↦ returned s.events s s' (cc (rw off at h)) ([], sym (append-nil s.events))
  ]

  run_session-Appends :
      (steps minted : ℕ) (s s' : MatchSession T)
      → run_session definition steps minted s ≡ ok s'
      → Appends s.events s'.events
  unfolding run_session
  run_session-Appends steps minted s s' h = elim (Bool-cases (is_created s.lifecycle)) [
    | inl new ↦
        let (current, started, rest) =
          >>=-eq-ok (start_session definition s none minted) (run_steps definition steps)
            (rw new at h) in
        Appends-trans s.events current.events s'.events
          (start_session-Appends s current none minted started)
          (run_steps-Appends steps current s' rest)
    | inr old ↦ run_steps-Appends steps s s' (rw old at h)
  ]

  session_step-Appends :
      (s s' : MatchSession T) (call : SessionCall)
      → session_step definition s call ≡ ok s'
      → Appends s.events s'.events
  unfolding session_step record_runtime_event
  session_step-Appends s s' (start_call seed minted) h = start_session-Appends s s' seed minted h
  session_step-Appends s s' step_call h = step_session-Appends s s' h
  session_step-Appends s s' request_call h =
      let ((asked, seat), requested, h₁) = >>=-eq-ok (request_turn definition s) _ h in
      returned s.events asked s' (cc h₁) (request_turn-Appends s asked seat requested)
  session_step-Appends s s' (complete_call seat) h = complete_turn-Appends s s' seat h
  session_step-Appends s s' (run_call steps minted) h = run_session-Appends steps minted s s' h
  session_step-Appends s s' (record_call event) h =
      returned s.events (record_runtime_event s event) s' (cc h) (event ∷ [], refl)
  session_step-Appends s s' (abort_call reason) h = abort_session-Appends s s' reason h

  -- Whatever methods of the coordinator are called on a session, and whatever events are recorded by
  -- record_runtime_event, its log is kept as it was, with more events after it.
  pub run_calls-append :
      (s s' : MatchSession T) (calls : List SessionCall)
      → run_calls definition s calls ≡ ok s'
      → (more : List RuntimeEvent) × (s'.events ≡ s.events ++ more)
  unfolding run_calls
  run_calls-append s s' [] h = returned s.events s s' (cc) ([], sym (append-nil s.events))
  run_calls-append s s' (call ∷ calls) h =
      let (next, first, rest) =
        >>=-eq-ok (session_step definition s call) (λ next. run_calls definition next calls) h in
      Appends-trans s.events next.events s'.events (session_step-Appends s next call first)
        (run_calls-append next s' calls rest)
