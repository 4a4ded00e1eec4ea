-- ===== src/Server/RateLimits/Follows.antt =====
-- The windows of src/arena/server/rate_limits.py beside the log of all accepted events.
use agents_arena.Prelude.{
  ℕ, ◌+◌, ◌≤◌, ◌≡◌, ◌≢◌, refl, sym, ◌∙◌, ◌⊎◌, inl, inr, true, false, not, ◌&&◌, none, List, [], ◌∷◌,
  ◌++◌, arith, length, leb, ◌==◌, if◌then◌else◌, Bool-cases, Option-cases,
}
use native.Mathlib.Decide.{ℕ_discrete}
use agents_arena.Server.RateLimits.{
  Dict, get, get_or, put, Windows, no_windows, prune, sweep, scan, window, check_window,
}
use agents_arena.Server.RateLimits.Sliding.{
  get-put, get-put_other, IsDict, put-IsDict, live, IsWindow, live-append, live-prune, live-length,
  live-is_stale, IsWindow-later, prune-IsWindow, append-IsWindow, get-sweep, sweep-IsDict,
}

-- A window as the dictionary has it, empty for a key without one.
abbrev pub at_key : ℕ → Windows → List ℕ
at_key k windows = get_or [] (get k windows.entries)

-- How many of the events of a key, all of them remembered, are younger than the span.
pub recent : ℕ → ℕ → ℕ → List (ℕ × ℕ) → ℕ
recent key now span [] = 0
recent key now span ((k, x) ∷ log) =
    (if key == k && not (leb (x + span) now) then 1 else 0) + recent key now span log

-- The windows hold, for each key, what is still live of the accepted events in `log`.
pub record Follows (span now : ℕ) (windows : Windows) (log : List (ℕ × ℕ)) : Type 0 where
  pub unique : IsDict windows.entries
  pub ordered : (k : ℕ) → IsWindow now (at_key k windows)
  pub same : (k n : ℕ) → now ≤ n → live n span (at_key k windows) ≡ recent k n span log

pub empty-Follows : (span now : ℕ) → Follows span now no_windows []
unfolding recent live IsWindow IsDict get get_or
empty-Follows span now = record { unique = tt; ordered = λ k. tt; same = λ k n l. refl }

pub Follows-later :
    (span now n : ℕ) (windows : Windows) (log : List (ℕ × ℕ))
    → now ≤ n
    → Follows span now windows log
    → Follows span n windows log
Follows-later span now n windows log l f = record {
  unique = f.unique;
  ordered = λ k. IsWindow-later now n (at_key k windows) l (f.ordered k);
  same = λ k m u. f.same k m (omega arith);
}

-- A window that the sweep dropped held nothing live.
sweep-IsWindow :
    (now span k n : ℕ) (d : Dict (List ℕ))
    → IsDict d
    → IsWindow now (get_or [] (get k d))
    → now ≤ n
    → IsWindow now (get_or [] (get k (sweep now span d)))
      × (live n span (get_or [] (get k (sweep now span d))) ≡ live n span (get_or [] (get k d)))
unfolding get_or IsWindow live
sweep-IsWindow now span k n d u o l = elim (get-sweep now span k d u) [
  | inl kept ↦ rw kept (o, refl)
  | inr (dropped, stale) ↦
      rw dropped (tt, sym (live-is_stale now n span (get_or [] (get k d)) l o stale))
]

scan-cases :
    (span now key : ℕ) (windows : Windows)
    → (scan windows key now span ≡ windows)
      ⊎ ((get key windows.entries ≡ none)
          × ((scan windows key now span).entries ≡ sweep now span windows.entries))
unfolding scan
scan-cases span now key windows = elim (Option-cases (get key windows.entries)) [
  | inr (w, found) ↦ ground arith
  | inl absent ↦ ground arith
]

scan-Follows :
    (span now key : ℕ) (windows : Windows) (log : List (ℕ × ℕ))
    → Follows span now windows log
    → Follows span now (scan windows key now span) log
scan-Follows span now key windows log f = elim (scan-cases span now key windows) [
  | inl same ↦ rw same f
  | inr (absent, due) ↦ record {
    unique = rw due (sweep-IsDict now span windows.entries f.unique);
    ordered = λ k.
        rw due
          (sweep-IsWindow now span k now windows.entries f.unique (f.ordered k) (omega arith)).0;
    same = λ k n l.
        rw due
          ((sweep-IsWindow now span k n windows.entries f.unique (f.ordered k) l).1 ∙ f.same k n l);
  }
]

-- Setting a key's window to one with the same live events keeps what the windows hold.
put-Follows :
    (span now key : ℕ) (windows : Windows) (w : List ℕ) (log log' : List (ℕ × ℕ))
    → Follows span now windows log
    → IsWindow now w
    → ((n : ℕ) → now ≤ n → live n span w ≡ recent key n span log')
    → ((k n : ℕ) → k ≢ key → recent k n span log' ≡ recent k n span log)
    → Follows span now (record windows { entries = put key w windows.entries }) log'
unfolding get_or
put-Follows span now key windows w log log' f o h others = record {
  unique = put-IsDict key w windows.entries f.unique;
  ordered = λ k. elim (ℕ_discrete k key) [
    | yes same ↦ rw (same, get-put key w windows.entries) o
    | no other ↦ rw (get-put_other key k w windows.entries other) (f.ordered k)
  ];
  same = λ k n l. elim (ℕ_discrete k key) [
    | yes same ↦ rw (same, get-put key w windows.entries) (h n l)
    | no other ↦
        rw (get-put_other key k w windows.entries other) (f.same k n l ∙ sym (others k n other))
  ];
}

-- The key's window after pruning, and its length.
window-Follows :
    (span now key : ℕ) (windows : Windows) (log : List (ℕ × ℕ))
    → Follows span now windows log
    → Follows span now (window windows key now span).0 log
      × IsWindow now (window windows key now span).1
      × ((n : ℕ) → now ≤ n → live n span (window windows key now span).1 ≡ recent key n span log)
      × (length (window windows key now span).1 ≡ recent key now span log)
unfolding window
window-Follows span now key windows log f =
    let s = scan-Follows span now key windows log f in
    let w = at_key key (scan windows key now span) in
    let o = prune-IsWindow now span now w (s.ordered key) in
    let kept : (n : ℕ) → now ≤ n → live n span (prune now span w) ≡ recent key n span log =
      λ n l. live-prune now n span w l ∙ s.same key n l in
    (
      put-Follows span now key (scan windows key now span) (prune now span w) log log s o kept
          (λ k n d. refl),
      o,
      kept,
      live-length now span w (s.ordered key) ∙ s.same key now (omega arith),
    )

appended :
    (span now key n : ℕ) (w : List ℕ) (log : List (ℕ × ℕ))
    → live n span w ≡ recent key n span log
    → live n span (w ++ now ∷ []) ≡ recent key n span ((key, now) ∷ log)
unfolding recent live
appended span now key n w log h = ground (arith, live-append n span now w)

other_key :
    (span now key k n : ℕ) (log : List (ℕ × ℕ))
    → k ≢ key
    → recent k n span ((key, now) ∷ log) ≡ recent k n span log
unfolding recent
other_key span now key k n log d = ground arith

pub check_window-Follows :
    (span now cap key : ℕ) (windows : Windows) (log : List (ℕ × ℕ))
    → Follows span now windows log
    → ((leb cap (recent key now span log) ≡ true)
        × ((check_window windows key now span cap).1 ≡ false)
        × Follows span now (check_window windows key now span cap).0 log)
      ⊎ ((leb cap (recent key now span log) ≡ false)
          × ((check_window windows key now span cap).1 ≡ true)
          × Follows span now (check_window windows key now span cap).0 ((key, now) ∷ log))
unfolding check_window
check_window-Follows span now cap key windows log f =
    let (f', o, kept, counted) = window-Follows span now key windows log f in
    let w = (window windows key now span).1 in
    elim (Bool-cases (leb cap (length w))) [
      | inl full ↦ inl (rw (← counted) full, rw full refl, rw full f')
      | inr free ↦ inr (
        rw (← counted) free,
        rw free refl,
        rw free (
            put-Follows span now key (window windows key now span).0 (w ++ now ∷ []) log
              ((key, now) ∷ log) f' (append-IsWindow now w o)
              (λ n l. appended span now key n w log (kept n l))
              (λ k n d. other_key span now key k n log d)),
      )
    ]
