-- ===== src/Server/RateLimits/Reserve.antt =====
-- The slots of `reserve_action`, src/arena/server/rate_limits.py, over a sequence of calls for a match.
use agents_arena.Prelude.{
  ℕ, ◌+◌, ◌-◌, ◌≤◌, ◌<◌, ◌≡◌, refl, sym, ap, ◌∙◌, inl, inr, true, none, some, List, [], ◌∷◌, ◌++◌,
  arith, length, get_elem?, ltb, ◌==◌, if◌then◌else◌, Bool-cases, get_elem?-length, append_assoc,
  append-nil,
}
use agents_arena.Core.Errors.{Result, ok, ◌>>=◌}
use agents_arena.Server.RateLimits.Sliding.{get-put}
use agents_arena.Server.RateLimits.{
  get, get_or, put, RateLimiter, prune, from_end, next_slot, reserve_action, action_window_s,
}
use agents_arena.Server.RateLimits.Slots.{
  AreOld, IsRest, IsSpaced, IsSpaced-apart, IsSpaced-append, append-left, append-right, are_apart,
  drop, length-append, prune-again,
}

-- With a positive cap there is always a slot. It is not before the call, and leaves a span to the
-- one a cap's number before.
next_slot-ok :
    (cap now span : ℕ) (log w : List ℕ)
    → 1 ≤ cap
    → IsRest now span log w
    → (slot : ℕ) × (next_slot cap w now span ≡ ok slot)
      × (now ≤ slot)
      × ((i x : ℕ) → i + cap ≡ length log → get_elem? log i ≡ some x → x + span ≤ slot)
unfolding next_slot from_end AreOld
next_slot-ok cap now span log w one r = elim (Bool-cases (ltb (length w) cap)) [
  | inl few ↦ (
    now,
    ground arith,
    omega arith,
    λ i x at_end found.
        let size = length-append r.dropped w in
        let whole = ap (length {A = ℕ}) r.whole in
        let inside : i < length r.dropped = ground arith in
        r.old i x
          (sym (append-left r.dropped w i inside) ∙ sym (ap (λ l. get_elem? l i) r.whole) ∙ found),
  )
  | inr many ↦
      let (x, found) = get_elem?-length w (length w - cap) (ground arith) in
      let place : (if cap == 0 then 0 else length w - cap) ≡ length w - cap = ground arith in
      (
        (if ltb now (x + span) then x + span else now),
        rw (many, place, found),
        ground arith,
        λ i y at_end stands.
            let size = length-append r.dropped w in
            let whole = ap (length {A = ℕ}) r.whole in
            let there : i ≡ length r.dropped + (length w - cap) = ground arith in
            let same : some y ≡ some x =
              sym stands
              ∙ ap (λ l. get_elem? l i) r.whole
              ∙ ap (λ i. get_elem? (r.dropped ++ w) i) there
              ∙ append-right r.dropped w (length w - cap)
              ∙ found in
            ground arith,
      )
]

-- The moments never go back.
unfoldable pub AreMoments : ℕ → List ℕ → Type 0
AreMoments now [] = Unit
AreMoments now (x ∷ calls) = (now ≤ x) × AreMoments x calls

-- The slots that calls of `reserve_action` for one match get, at the moments of the list: the moment
-- of the call and the wait that it returned.
pub reserved : RateLimiter → ℕ → List ℕ → Result (List ℕ)
reserved l match_id [] = ok []
reserved l match_id (now ∷ calls) = do
  (l', wait) ← reserve_action l match_id now
  rest ← reserved l' match_id calls
  ok ((now + wait) ∷ rest)

IsRest-append :
    (now span slot : ℕ) (log w : List ℕ)
    → IsRest now span log w
    → IsRest now span (log ++ slot ∷ []) (w ++ slot ∷ [])
IsRest-append now span slot log w r = record {
  dropped = r.dropped;
  whole = ap (λ l. l ++ slot ∷ []) r.whole ∙ append_assoc r.dropped w (slot ∷ []);
  old = r.old;
}

reserve_action-ok :
    (l : RateLimiter) (m now slot : ℕ)
    → next_slot l.caps.max_actions_per_match
        (prune now action_window_s (get_or [] (get m l.actions)))
        now
        action_window_s
      ≡ ok slot
    → reserve_action l m now
      ≡ ok (
        record l {
          actions =
              put m
                (prune now action_window_s (get_or [] (get m l.actions)) ++ slot ∷ [])
                l.actions;
        },
        slot - now,
      )
unfolding reserve_action
reserve_action-ok l m now slot h = rw (h, reserve_action) refl

module _ (m : ℕ) where
  reserved-IsSpaced :
      (l : RateLimiter) (now : ℕ) (log calls : List ℕ)
      → 1 ≤ l.caps.max_actions_per_match
      → IsRest now action_window_s log (get_or [] (get m l.actions))
      → IsSpaced l.caps.max_actions_per_match action_window_s log
      → AreMoments now calls
      → (all : List ℕ) × (reserved l m calls ≡ ok all)
        × IsSpaced l.caps.max_actions_per_match action_window_s (log ++ all)
  unfolding reserved AreMoments get_or
  reserved-IsSpaced l now log [] one r s c = ([], refl, rw (append-nil log) s)
  reserved-IsSpaced l now log (x ∷ calls) one r s (le, c) =
      let w = prune x action_window_s (get_or [] (get m l.actions)) in
      let r₁ = prune-again now x action_window_s log (get_or [] (get m l.actions)) le r in
      let (slot, given, after, next) =
        next_slot-ok l.caps.max_actions_per_match x action_window_s log w one r₁ in
      let l' : RateLimiter = record l { actions = put m (w ++ slot ∷ []) l.actions } in
      let held : get m l'.actions ≡ some (w ++ slot ∷ []) = get-put m (w ++ slot ∷ []) l.actions in
      let (all, made, spaced) =
        reserved-IsSpaced l' x (log ++ slot ∷ []) calls one
          (rw held (IsRest-append x action_window_s slot log w r₁))
          (IsSpaced-append l.caps.max_actions_per_match action_window_s slot log one s next) c in
      let moment : x + (slot - x) ≡ slot = omega arith in
      (
        slot ∷ all,
        rw (reserve_action-ok l m x slot given, made, moment) refl,
        rw (← append_assoc log (slot ∷ []) all) spaced,
      )

-- With a positive cap on actions, calls of `reserve_action` for one match without a window, at moments
-- that never go back, all get a slot, and each slot is at least a second before the one that stands
-- the cap's number of slots later.
pub reserve_action-spaced :
    (l : RateLimiter) (m now : ℕ) (calls : List ℕ)
    → 1 ≤ l.caps.max_actions_per_match
    → get m l.actions ≡ none
    → AreMoments now calls
    → (all : List ℕ) × (reserved l m calls ≡ ok all)
      × (are_apart action_window_s all (drop l.caps.max_actions_per_match all) ≡ true)
unfolding IsSpaced AreOld get_or
reserve_action-spaced l m now calls one absent c =
    let (all, made, spaced) =
      reserved-IsSpaced m l now [] calls one
        (rw absent (record { dropped = []; whole = refl; old = λ i x h. cc })) (λ i x y h. cc) c in
    (all, made, IsSpaced-apart l.caps.max_actions_per_match action_window_s all spaced)
