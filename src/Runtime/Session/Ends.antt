-- ===== src/Runtime/Session/Ends.antt =====
-- How a run of src/arena/runtime/session.py ends, for games whose turns lower a measure.
use agents_arena.Prelude.{
  ℕ, zero, suc, ◌+◌, ◌<◌, ◌≡◌, ◌⊎◌, inl, inr, refl, true, false, none, some, List, [], ◌∷◌, arith,
  Bool-cases, length, if◌then◌else◌,
}
use agents_arena.Core.Errors.{is_core_error, Error, ok, err, >>=-eq-ok}
use agents_arena.Core.Engine.{GameTypes, GameDefinition}
use agents_arena.Core.Simultaneous.{acting_seats, is_joint_node, get_seat}
use agents_arena.Match.LocalMatch.{LocalMatch, MatchCall, start_match, act, step}
use agents_arena.Match.Policy.Turns.{Lowers}
use agents_arena.Adapters.InProcess.{
  PayloadPolicy, first_seat, build_observation_request, load_action_response,
  apply_payload_policy_turn,
}
use agents_arena.Runtime.Session.{
  running, missing_policy, turn_requested, turn_accepted, MatchSession, is_over, is_running,
  finish_session, abort_with, record_runtime_event, running_match, request_turn, after_turn,
  settle_turn, start_session, started_session, run_session, is_created, core_error, runtime_error,
  complete_turn, request_and_complete, take_turn, step_session, run_steps,
}
use agents_arena.Runtime.Session.Sound.{result_cases}

module _ {T : GameTypes} (definition : GameDefinition T) where
  open definition use {rules_engine as rules}

  -- A turn that a policy completes is a call of apply_match_action.
  apply_payload_policy_turn-step :
      (m next : LocalMatch T) (policy : PayloadPolicy T.Json)
      → apply_payload_policy_turn definition m policy ≡ ok next
      → (call : MatchCall T) × (step definition m call ≡ ok next)
  unfolding apply_payload_policy_turn step
  apply_payload_policy_turn-step m next policy h =
      let (request, asked, h₁) = >>=-eq-ok (build_observation_request definition m _) _ h in
      let (response, answered, h₂) = >>=-eq-ok (policy request) _ h₁ in
      let (action, loaded, h₃) = >>=-eq-ok (load_action_response definition response) _ h₂ in
      (act response.seat action, h₃)

  -- The session is over, or goes on with a match that is one step further.
  abbrev pub Advanced : LocalMatch T → MatchSession T → Type 0
  Advanced m s =
      (is_over s.lifecycle ≡ true)
      ⊎ ((next : LocalMatch T) × (call : MatchCall T) × (s.lifecycle ≡ running)
          × (s.local_match ≡ some next)
          × (step definition m call ≡ ok next))

  settle_turn-Advanced :
      (s : MatchSession T) (m : LocalMatch T) (policy : PayloadPolicy T.Json) (seat index : ℕ)
      → s.lifecycle ≡ running
      → Advanced m (
          settle_turn definition s
            (apply_payload_policy_turn definition m policy)
            (turn_accepted seat index ∷ []))
  unfolding settle_turn after_turn finish_session abort_with
  settle_turn-Advanced s m policy seat index on =
      elim (result_cases (apply_payload_policy_turn definition m policy)) [
        | inl (e, raised) ↦ inl (rw raised refl)
        | inr (next, turned) ↦ elim (Bool-cases (rules.is_terminal next.rules_engine next.state)) [
          | inl over ↦ inl (rw (turned, over) refl)
          | inr going ↦
              let (call, h) = apply_payload_policy_turn-step m next policy turned in
              inr (rw (turned, going) (next, call, on, refl, h))
        ]
      ]

  complete_turn-aborts :
      (s : MatchSession T) (m : LocalMatch T) (seat : ℕ) (e : Error)
      → s.local_match ≡ some m
      → get_seat seat s.policy_bindings ≡ err e
      → complete_turn definition s seat ≡ ok (abort_with s missing_policy none)
  unfolding complete_turn
  complete_turn-aborts s m seat e found missing = ground (arith, found, missing)

  complete_turn-settles :
      (s : MatchSession T) (m : LocalMatch T) (seat : ℕ) (policy : PayloadPolicy T.Json)
      → s.local_match ≡ some m
      → get_seat seat s.policy_bindings ≡ ok policy
      → complete_turn definition s seat
        ≡ ok (
            settle_turn definition s
              (apply_payload_policy_turn definition m policy)
              (turn_accepted seat (length m.turns + 1) ∷ []))
  unfolding complete_turn
  complete_turn-settles s m seat policy found bound = ground (arith, found, bound)

  complete_turn-Advanced :
      (s : MatchSession T) (m : LocalMatch T) (seat : ℕ)
      → s.lifecycle ≡ running
      → s.local_match ≡ some m
      → (s' : MatchSession T) × (complete_turn definition s seat ≡ ok s') × Advanced m s'
  unfolding abort_with
  complete_turn-Advanced s m seat on found = elim (result_cases (get_seat seat s.policy_bindings)) [
    | inl (e, missing) ↦
        (abort_with s missing_policy none, complete_turn-aborts s m seat e found missing, inl refl)
    | inr (policy, bound) ↦ (
      settle_turn definition s (apply_payload_policy_turn definition m policy)
          (turn_accepted seat (length m.turns + 1) ∷ []),
      complete_turn-settles s m seat policy found bound,
      settle_turn-Advanced s m policy seat (length m.turns + 1) on,
    )
  ]

  running_match-there :
      (s : MatchSession T) (m : LocalMatch T)
      → s.lifecycle ≡ running
      → s.local_match ≡ some m
      → running_match definition s ≡ ok m
  unfolding running_match
  running_match-there s m on found = ground (arith, on, found)

  request_turn-there :
      (s : MatchSession T) (m : LocalMatch T) (seats : List ℕ)
      → running_match definition s ≡ ok m
      → is_joint_node rules m.rules_engine m.state ≡ ok false
      → acting_seats rules m.rules_engine m.state ≡ ok seats
      → request_turn definition s
        ≡ ok (
          record_runtime_event s (turn_requested (first_seat definition m seats)),
          first_seat definition m seats,
        )
  unfolding request_turn
  request_turn-there s m seats there alone acting = rw (there, alone, acting) refl

  -- A step of a running session, where one seat acts.
  step_session-Advanced :
      (s : MatchSession T) (m : LocalMatch T) (seats : List ℕ)
      → s.lifecycle ≡ running
      → s.local_match ≡ some m
      → is_joint_node rules m.rules_engine m.state ≡ ok false
      → acting_seats rules m.rules_engine m.state ≡ ok seats
      → (s' : MatchSession T) × (step_session definition s ≡ ok s') × Advanced m s'
  unfolding step_session take_turn request_and_complete finish_session record_runtime_event
  step_session-Advanced s m seats on found alone acting =
      let there = running_match-there s m on found in
      elim (Bool-cases (rules.is_terminal m.rules_engine m.state)) [
        | inl over ↦ (finish_session s, rw (there, over) refl, inl refl)
        | inr going ↦
            let seat = first_seat definition m seats in
            let (s', completed, advanced) =
              complete_turn-Advanced (record_runtime_event s (turn_requested seat)) m seat on
                found in
            let asked = request_turn-there s m seats there alone acting in
            (s', rw (there, going, alone, asked) completed, advanced)
      ]

  over_stopped : (s : MatchSession T) → is_over s.lifecycle ≡ true → is_running s.lifecycle ≡ false
  over_stopped s over = ground arith

  run_steps-over :
      (steps : ℕ) (s : MatchSession T)
      → is_over s.lifecycle ≡ true
      → run_steps definition steps s ≡ ok s
  unfolding run_steps
  run_steps-over zero s over = rw (over_stopped s over) refl
  run_steps-over (suc steps) s over = rw (over_stopped s over) refl

  module _ (Inv : LocalMatch T → Type 0) (measure : LocalMatch T → ℕ) where
    -- Where every step lowers a measure and one seat acts, more steps than it says are enough.
    pub run_steps-ends :
        Lowers definition Inv measure
        → ((m : LocalMatch T)
            → (is_joint_node rules m.rules_engine m.state ≡ ok false)
              × (seats : List ℕ) × (acting_seats rules m.rules_engine m.state ≡ ok seats))
        → (steps : ℕ) (s : MatchSession T) (m : LocalMatch T) → Inv m
        → s.lifecycle ≡ running
        → s.local_match ≡ some m
        → measure m < steps
        → (s' : MatchSession T) × (run_steps definition steps s ≡ ok s')
          × (is_over s'.lifecycle ≡ true)
    unfolding run_steps Lowers
    run_steps-ends lowers turns zero s m v on found fits = absurd (omega arith)
    run_steps-ends lowers turns (suc steps) s m v on found fits =
        let (alone, seats, acting) = turns m in
        let is_on : is_running s.lifecycle ≡ true = ground (arith, on) in
        let (next, stepped, advanced) = step_session-Advanced s m seats on found alone acting in
        elim advanced [
          | inl over ↦ (next, rw (is_on, stepped) (run_steps-over steps next over), over)
          | inr (m', call, on', found', h) ↦
              let (v', less) = lowers m m' call v h in
              let (s', rest, over) =
                run_steps-ends lowers turns steps next m' v' on' found' (omega arith) in
              (s', rw (is_on, stepped) rest, over)
        ]

    -- A session that starts a match with `Inv` is over after the run, also where it cannot start.
    pub run_session-ends :
        Lowers definition Inv measure
        → ((m : LocalMatch T)
            → (is_joint_node rules m.rules_engine m.state ≡ ok false)
              × (seats : List ℕ) × (acting_seats rules m.rules_engine m.state ≡ ok seats))
        → (steps minted : ℕ) (s : MatchSession T)
        → ((m : LocalMatch T)
            → start_match definition s.config none minted ≡ ok m
            → Inv m × (measure m < steps))
        → is_created s.lifecycle ≡ true
        → (s' : MatchSession T) × (run_session definition steps minted s ≡ ok s')
          × (is_over s'.lifecycle ≡ true)
    unfolding run_session start_session started_session abort_with
    run_session-ends lowers turns steps minted s begins fresh =
        elim (result_cases (start_match definition s.config none minted)) [
          | inl (e, failed) ↦
              let dead =
                abort_with s (if is_core_error e then core_error else runtime_error) (some e) in
              (dead, rw (fresh, failed) (run_steps-over steps dead refl), refl)
          | inr (m, opened) ↦
              let begun = started_session definition s m in
              elim (Bool-cases (rules.is_terminal m.rules_engine m.state)) [
                | inl over ↦
                    let closed : is_over begun.lifecycle ≡ true = rw over refl in
                    (begun, rw (fresh, opened) (run_steps-over steps begun closed), closed)
                | inr going ↦
                    let (v, fits) = begins m opened in
                    let (s', ran, over) =
                      run_steps-ends lowers turns steps begun m v (rw going refl) refl fits in
                    (s', rw (fresh, opened) ran, over)
              ]
        ]
