-- ===== src/Server/RateLimits/Exact.antt =====
-- The checks of match creations and of transcript reads, src/arena/server/rate_limits.py, beside a
-- limiter that keeps every event.
use agents_arena.Prelude.{
  ℕ, ◌≤◌, ◌≡◌, refl, ap, inl, inr, Option, none, some, List, [], ◌∷◌, leb, if◌then◌else◌,
}
use agents_arena.Server.RateLimits.{
  RateLimiter, Caps, Scope, make_limiter, check_match_creation, check_transcript_read,
  match_creation_window_s, read_window_s, match_creations_per_ip, transcript_reads_per_ip,
}
use agents_arena.Server.RateLimits.Follows.{
  recent, Follows, empty-Follows, Follows-later, check_window-Follows,
}

-- Calls, each a key with its moment, at moments that never go back.
unfoldable pub IsClock : ℕ → List (ℕ × ℕ) → Type 0
IsClock now [] = Unit
IsClock now ((key, x) ∷ calls) = (now ≤ x) × IsClock x calls

-- The answers of a limiter that remembers every accepted event in `log`: a call is refused if as many
-- events of its key as the cap are younger than the span.
pub remembered_answers : ℕ → ℕ → Scope → List (ℕ × ℕ) → List (ℕ × ℕ) → List (Option Scope)
remembered_answers span cap scope log [] = []
remembered_answers span cap scope log ((key, now) ∷ calls) =
    let later = remembered_answers span cap scope log calls in
    let recorded = remembered_answers span cap scope ((key, now) ∷ log) calls in
    if leb cap (recent key now span log) then some scope ∷ later else none ∷ recorded

-- The answers of one check to a sequence of calls.
pub answers :
    (RateLimiter → ℕ → ℕ → RateLimiter × Option Scope)
    → RateLimiter
    → List (ℕ × ℕ)
    → List (Option Scope)
answers check l [] = []
answers check l ((key, now) ∷ calls) =
    let (l', answer) = check l key now in answer ∷ answers check l' calls

creation-answers :
    (l : RateLimiter) (now : ℕ) (log calls : List (ℕ × ℕ))
    → Follows match_creation_window_s now l.creations log
    → IsClock now calls
    → answers check_match_creation l calls
      ≡ remembered_answers match_creation_window_s l.caps.max_creations_per_ip
          match_creations_per_ip log calls
unfolding answers remembered_answers check_match_creation IsClock
creation-answers l now log [] f c = refl
creation-answers l now log ((key, x) ∷ calls) f (le, c) =
    elim (check_window-Follows match_creation_window_s x l.caps.max_creations_per_ip key l.creations
      log (Follows-later match_creation_window_s now x l.creations log le f)) [
        | inl (full, no_entry, f') ↦
            rw (full, no_entry)
              (ap (some match_creations_per_ip ∷◌)
                (creation-answers (check_match_creation l key x).0 x log calls f' c))
        | inr (free, entry, f') ↦
            rw (free, entry)
              (ap (none ∷◌)
                (creation-answers (check_match_creation l key x).0 x ((key, x) ∷ log) calls f' c))
      ]

read-answers :
    (l : RateLimiter) (now : ℕ) (log calls : List (ℕ × ℕ))
    → Follows read_window_s now l.reads log
    → IsClock now calls
    → answers check_transcript_read l calls
      ≡ remembered_answers read_window_s l.caps.max_reads_per_ip transcript_reads_per_ip log calls
unfolding answers remembered_answers check_transcript_read IsClock
read-answers l now log [] f c = refl
read-answers l now log ((key, x) ∷ calls) f (le, c) =
    elim (check_window-Follows read_window_s x l.caps.max_reads_per_ip key l.reads log
      (Follows-later read_window_s now x l.reads log le f)) [
        | inl (full, no_entry, f') ↦
            rw (full, no_entry)
              (ap (some transcript_reads_per_ip ∷◌)
                (read-answers (check_transcript_read l key x).0 x log calls f' c))
        | inr (free, entry, f') ↦
            rw (free, entry)
              (ap (none ∷◌)
                (read-answers (check_transcript_read l key x).0 x ((key, x) ∷ log) calls f' c))
      ]

-- At moments that never go back, a new limiter answers match creations, and transcript reads, as one
-- that remembers every event it accepted and refuses a call exactly when as many of its address's
-- events as the cap are younger than a minute.
pub limiter-exact :
    (caps : Caps) (now : ℕ) (calls : List (ℕ × ℕ))
    → IsClock now calls
    → (answers check_match_creation (make_limiter caps) calls
        ≡ remembered_answers match_creation_window_s caps.max_creations_per_ip
            match_creations_per_ip [] calls)
      × (answers check_transcript_read (make_limiter caps) calls
          ≡ remembered_answers read_window_s caps.max_reads_per_ip transcript_reads_per_ip [] calls)
unfolding make_limiter
limiter-exact caps now calls c = (
  creation-answers (make_limiter caps) now [] calls (empty-Follows match_creation_window_s now) c,
  read-answers (make_limiter caps) now [] calls (empty-Follows read_window_s now) c,
)
