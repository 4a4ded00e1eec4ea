-- ===== src/Runtime/Session/Sound.antt =====
-- The operations of the coordinator of src/arena/runtime/session.py and the state of the lifecycle.
use mathlib.Core.Path.{subst}
use agents_arena.Prelude.{
  ℕ, ◌+◌, ◌≡◌, refl, ◌⊎◌, inl, inr, Bool, true, false, not, Option, none, some, [], ◌∷◌, ◌++◌, map,
  arith, length, Bool-cases, Option-cases, if◌then◌else◌,
}
use agents_arena.Core.Errors.{
  Error, Result, ok, err, >>=-eq-ok, raise_if, raise_if-eq-ok, is_core_error, runtime_state_error,
}
use agents_arena.Core.Engine.{GameTypes, GameDefinition}
use agents_arena.Core.Simultaneous.{acting_seats, is_joint_node, get_seat, pick}
use agents_arena.Match.LocalMatch.{LocalMatch, start_match}
use agents_arena.Adapters.InProcess.{
  PayloadPolicy, apply_payload_policy_turn, apply_payload_policy_joint_turn,
}
use agents_arena.Runtime.Session.{
  running, AbortReason, RuntimeEvent, match_finished, turn_requested, turn_accepted, MatchSession,
  is_created, is_over, finish_session, abort_with, record_runtime_event, abort_session,
  start_session, running_match, request_turn, settle_turn, complete_turn, step_joint,
  request_and_complete, take_turn, step_session, missing_policy, core_error, runtime_error,
}
use agents_arena.Runtime.Session.Lifecycle.{
  closes, closings, closings-append, IsSound, Fits, open_log, abort_with-IsSound,
  started_session-IsSound, settle_turn-IsSound, closings-requested, closings-accepted,
  is_played_out,
}

pub result_cases :
    {A : Type 0} (r : Result A) → ((e : Error) × (r ≡ err e)) ⊎ ((a : A) × (r ≡ ok a))
result_cases (ok a) = inr (a, refl)
result_cases (err e) = inl (e, refl)

module _ {T : GameTypes} (definition : GameDefinition T) where
  open definition use {rules_engine as rules}

  running_match-eq_ok :
      (s : MatchSession T) (m : LocalMatch T)
      → running_match definition s ≡ ok m
      → (s.lifecycle ≡ running) × (s.local_match ≡ some m)
  unfolding running_match
  running_match-eq_ok s m h = ground arith

  step_joint-IsSound :
      (s s' : MatchSession T) (m : LocalMatch T)
      → IsSound definition s
      → s.lifecycle ≡ running
      → step_joint definition s m ≡ ok s'
      → IsSound definition s'
  unfolding step_joint
  step_joint-IsSound s s' m v r h =
      let (seats, acting, h₁) = >>=-eq-ok (acting_seats rules m.rules_engine m.state) _ h in
      let (none_closed, unaborted) = open_log definition s v (rw r refl) in
      let asked : MatchSession T = record s { events = s.events ++ map turn_requested seats } in
      let quiet : closings asked.events ≡ 0 = omega (
        arith,
        closings-append s.events (map turn_requested seats),
        closings-requested definition seats,
        none_closed,
      ) in
      elim (result_cases (pick seats s.policy_bindings)) [
        | inl (e, missing) ↦
            subst (IsSound definition) (cc (rw missing at h₁))
              (abort_with-IsSound definition asked missing_policy none quiet)
        | inr (policies, found) ↦ subst (IsSound definition) (cc (rw found at h₁)) (
            settle_turn-IsSound definition asked
              (apply_payload_policy_joint_turn definition m policies)
              (map (λ seat. turn_accepted seat (length m.turns + 1)) seats) quiet
              (closings-accepted definition (length m.turns + 1) seats) unaborted r)
      ]

  pub complete_turn-unbound :
      (s s' : MatchSession T) (seat : ℕ) (m : LocalMatch T) (e : Error)
      → s.local_match ≡ some m
      → get_seat seat s.policy_bindings ≡ err e
      → complete_turn definition s seat ≡ ok s'
      → abort_with s missing_policy none ≡ s'
  unfolding complete_turn
  complete_turn-unbound s s' seat m e found missing h = ground arith

  pub complete_turn-bound :
      (s s' : MatchSession T) (seat : ℕ) (m : LocalMatch T) (policy : PayloadPolicy T.Json)
      → s.local_match ≡ some m
      → get_seat seat s.policy_bindings ≡ ok policy
      → complete_turn definition s seat ≡ ok s'
      → settle_turn definition s
          (apply_payload_policy_turn definition m policy)
          (turn_accepted seat (length m.turns + 1) ∷ [])
        ≡ s'
  unfolding complete_turn
  complete_turn-bound s s' seat m policy found bound h = ground arith

  pub complete_turn-IsSound :
      (s s' : MatchSession T) (seat : ℕ)
      → IsSound definition s
      → s.lifecycle ≡ running
      → complete_turn definition s seat ≡ ok s'
      → IsSound definition s'
  unfolding complete_turn closings
  complete_turn-IsSound s s' seat v r h =
      let (none_closed, unaborted) = open_log definition s v (rw r refl) in
      elim (Option-cases s.local_match) [
        | inl absent ↦ ground arith
        | inr (m, found) ↦ elim (result_cases (get_seat seat s.policy_bindings)) [
          | inl (e, missing) ↦
              subst (IsSound definition) (complete_turn-unbound s s' seat m e found missing h)
                (abort_with-IsSound definition s missing_policy none none_closed)
          | inr (policy, bound) ↦
              subst (IsSound definition) (complete_turn-bound s s' seat m policy found bound h) (
                settle_turn-IsSound definition s (apply_payload_policy_turn definition m policy)
                  (turn_accepted seat (length m.turns + 1) ∷ []) none_closed refl unaborted r)
        ]
      ]

  pub request_turn-event :
      (s asked : MatchSession T) (seat : ℕ)
      → request_turn definition s ≡ ok (asked, seat)
      → record_runtime_event s (turn_requested seat) ≡ asked
  unfolding request_turn
  request_turn-event s asked seat h = ground arith

  pub recorded-IsSound :
      (s : MatchSession T) (event : RuntimeEvent)
      → IsSound definition s
      → closes event ≡ 0
      → IsSound definition (record_runtime_event s event)
  unfolding record_runtime_event IsSound Fits closings
  recorded-IsSound s event v quiet = ground (arith, closings-append s.events (event ∷ []), v)

  requested-running :
      (s : MatchSession T) (seat : ℕ)
      → s.lifecycle ≡ running
      → (record_runtime_event s (turn_requested seat)).lifecycle ≡ running
  unfolding record_runtime_event
  requested-running s seat r = r

  created_open :
      (s : MatchSession T) → not (is_created s.lifecycle) ≡ false → is_over s.lifecycle ≡ false
  created_open s h = ground arith

  request_and_complete-IsSound :
      (s s' : MatchSession T)
      → IsSound definition s
      → s.lifecycle ≡ running
      → request_and_complete definition s ≡ ok s'
      → IsSound definition s'
  unfolding request_and_complete
  request_and_complete-IsSound s s' v r h =
      let ((asked, seat), requested, h₁) = >>=-eq-ok (request_turn definition s) _ h in
      let same : record_runtime_event s (turn_requested seat) ≡ asked =
        request_turn-event s asked seat requested in
      complete_turn-IsSound asked s' seat
        (subst (IsSound definition) same (recorded-IsSound s (turn_requested seat) v refl))
        (subst (λ (s : MatchSession T). s.lifecycle ≡ running) same (requested-running s seat r)) h₁

  take_turn-IsSound :
      (s s' : MatchSession T) (m : LocalMatch T) (joint : Bool)
      → IsSound definition s
      → s.lifecycle ≡ running
      → take_turn definition s m joint ≡ ok s'
      → IsSound definition s'
  unfolding take_turn
  take_turn-IsSound s s' m true v r h = step_joint-IsSound s s' m v r h
  take_turn-IsSound s s' m false v r h = request_and_complete-IsSound s s' v r h

  finish_session-IsSound :
      (s : MatchSession T) (m : LocalMatch T)
      → IsSound definition s
      → s.lifecycle ≡ running
      → s.local_match ≡ some m
      → rules.is_terminal m.rules_engine m.state ≡ true
      → IsSound definition (finish_session s)
  unfolding finish_session IsSound Fits is_played_out closings
  finish_session-IsSound s m v r found over =
      let (none_closed, unaborted) = open_log definition s v (rw r refl) in
      (
        rw found over,
        unaborted,
        ground (arith, closings-append s.events (match_finished ∷ []), none_closed),
      )

  pub step_session-IsSound :
      (s s' : MatchSession T)
      → IsSound definition s
      → step_session definition s ≡ ok s'
      → IsSound definition s'
  unfolding step_session
  step_session-IsSound s s' v h =
      let (m, there, h₁) = >>=-eq-ok (running_match definition s) _ h in
      let (r, found) = running_match-eq_ok s m there in
      elim (Bool-cases (rules.is_terminal m.rules_engine m.state)) [
        | inl over ↦
            subst (IsSound definition) (cc (rw over at h₁))
              (finish_session-IsSound s m v r found over)
        | inr on ↦
            let (joint, asked, h₂) =
              >>=-eq-ok (is_joint_node rules m.rules_engine m.state) (take_turn definition s m)
                (rw on at h₁) in
            take_turn-IsSound s s' m joint v r h₂
      ]

  pub start_session-IsSound :
      (s s' : MatchSession T) (seed : Option ℕ) (minted : ℕ)
      → IsSound definition s
      → start_session definition s seed minted ≡ ok s'
      → IsSound definition s'
  unfolding start_session
  start_session-IsSound s s' seed minted v h =
      let (u, fresh, h₁) =
        >>=-eq-ok (raise_if (not (is_created s.lifecycle)) runtime_state_error) _ h in
      let (none_closed, unaborted) =
        open_log definition s v (created_open s (raise_if-eq-ok _ _ fresh)) in
      elim (result_cases (start_match definition s.config seed minted)) [
        | inl (e, failed) ↦ subst (IsSound definition) (cc (rw failed at h₁)) (
            abort_with-IsSound definition s (if is_core_error e then core_error else runtime_error)
              (some e) none_closed)
        | inr (m, opened) ↦
            subst (IsSound definition) (cc (rw opened at h₁))
              (started_session-IsSound definition s m none_closed unaborted)
      ]

  pub abort_session-IsSound :
      (s s' : MatchSession T) (reason : AbortReason)
      → IsSound definition s
      → abort_session s reason ≡ ok s'
      → IsSound definition s'
  unfolding abort_session
  abort_session-IsSound s s' reason v h =
      let (u, fresh, h₁) = >>=-eq-ok (raise_if (is_over s.lifecycle) runtime_state_error) _ h in
      let (none_closed, unaborted) = open_log definition s v (raise_if-eq-ok _ _ fresh) in
      subst (IsSound definition) (cc h₁) (abort_with-IsSound definition s reason none none_closed)
