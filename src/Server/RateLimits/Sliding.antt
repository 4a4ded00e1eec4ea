-- ===== src/Server/RateLimits/Sliding.antt =====
-- The windows of src/arena/server/rate_limits.py: dictionaries of windows, pruning, and the scan for
-- stale ones.
use agents_arena.Prelude.{
  ℕ, ◌+◌, ◌≤◌, ◌≡◌, ◌≢◌, refl, ◌⊎◌, inl, true, none, some, List, [], ◌∷◌, ◌++◌, arith, length, leb,
  if◌then◌else◌,
}
use native.Mathlib.Decide.{ℕ_discrete}
use agents_arena.Server.RateLimits.{Dict, get, get_or, put, prune, is_stale, sweep}

-- Dictionaries.
pub get-put : {A : Type 0} (k : ℕ) (v : A) (d : Dict A) → get k (put k v d) ≡ some v
unfolding get put
get-put k v [] = ground arith
get-put k v ((j, w) ∷ d) = ground (arith, get-put k v d)

pub get-put_other :
    {A : Type 0} (k j : ℕ) (v : A) (d : Dict A) → j ≢ k → get j (put k v d) ≡ get j d
unfolding get put
get-put_other k j v [] n = ground arith
get-put_other k j v ((i, w) ∷ d) n = ground (arith, get-put_other k j v d n)

-- No key has two entries.
unfoldable pub IsDict : {A : Type 0} → Dict A → Type 0
IsDict [] = Unit
IsDict ((k, v) ∷ d) = (get k d ≡ none) × IsDict d

pub put-IsDict : {A : Type 0} (k : ℕ) (v : A) (d : Dict A) → IsDict d → IsDict (put k v d)
unfolding get put IsDict
put-IsDict k v [] u = ground arith
put-IsDict k v ((j, w) ∷ d) (a, u) = elim (ℕ_discrete k j) [
  | yes same ↦ ground arith
  | no other ↦ ground (arith, put-IsDict k v d u, get-put_other k j v d)
]

-- The events of a window that are younger than the span.
unfoldable pub live : ℕ → ℕ → List ℕ → ℕ
live now span [] = 0
live now span (x ∷ xs) = (if leb (x + span) now then 0 else 1) + live now span xs

-- Oldest first, and none later than `now`.
unfoldable pub IsWindow : ℕ → List ℕ → Type 0
IsWindow now [] = Unit
IsWindow now (x ∷ []) = x ≤ now
IsWindow now (x ∷ y ∷ w) = (x ≤ y) × IsWindow now (y ∷ w)

pub live-append :
    (n span x : ℕ) (w : List ℕ) → live n span (w ++ x ∷ []) ≡ live n span w + live n span (x ∷ [])
unfolding live
live-append n span x [] = ground arith
live-append n span x (y ∷ w) = ground (arith, live-append n span x w)

-- What pruning drops is not live then, nor later.
pub live-prune :
    (now n span : ℕ) (w : List ℕ) → now ≤ n → live n span (prune now span w) ≡ live n span w
unfolding live prune
live-prune now n span [] l = refl
live-prune now n span (x ∷ w) l = ground (arith, live-prune now n span w l)

pub live-length :
    (now span : ℕ) (w : List ℕ) → IsWindow now w → length (prune now span w) ≡ live now span w
unfolding live prune IsWindow
live-length now span [] o = refl
live-length now span (x ∷ []) o = ground arith
live-length now span (x ∷ y ∷ w) (l, o) = ground (arith, live-length now span (y ∷ w) o)

pub live-is_stale :
    (now n span : ℕ) (w : List ℕ)
    → now ≤ n
    → IsWindow now w
    → is_stale now span w ≡ true
    → live n span w ≡ 0
unfolding live is_stale IsWindow
live-is_stale now n span [] l o h = refl
live-is_stale now n span (x ∷ []) l o h = ground arith
live-is_stale now n span (x ∷ y ∷ w) l (le, o) h =
    ground (arith, live-is_stale now n span (y ∷ w) l o h)

pub IsWindow-later : (now n : ℕ) (w : List ℕ) → now ≤ n → IsWindow now w → IsWindow n w
unfolding IsWindow
IsWindow-later now n [] l o = tt
IsWindow-later now n (x ∷ []) l o = omega arith
IsWindow-later now n (x ∷ y ∷ w) l (le, o) = (le, IsWindow-later now n (y ∷ w) l o)

IsWindow-tail : (now x : ℕ) (w : List ℕ) → IsWindow now (x ∷ w) → IsWindow now w
unfolding IsWindow
IsWindow-tail now x [] o = tt
IsWindow-tail now x (y ∷ w) o = o.1

pub prune-IsWindow : (now span n : ℕ) (w : List ℕ) → IsWindow n w → IsWindow n (prune now span w)
unfolding prune
prune-IsWindow now span n [] o = o
prune-IsWindow now span n (x ∷ w) o =
    ground (arith, prune-IsWindow now span n w (IsWindow-tail n x w o))

pub append-IsWindow : (now : ℕ) (w : List ℕ) → IsWindow now w → IsWindow now (w ++ now ∷ [])
unfolding IsWindow
append-IsWindow now [] o = omega arith
append-IsWindow now (x ∷ []) o = ground arith
append-IsWindow now (x ∷ y ∷ w) (l, o) = (l, append-IsWindow now (y ∷ w) o)

-- A scan drops a stale window and keeps the others.
pub get-sweep :
    (now span k : ℕ) (d : Dict (List ℕ))
    → IsDict d
    → (get k (sweep now span d) ≡ get k d)
      ⊎ ((get k (sweep now span d) ≡ none) × (is_stale now span (get_or [] (get k d)) ≡ true))
unfolding get get_or sweep IsDict is_stale
get-sweep now span k [] u = inl refl
get-sweep now span k ((j, w) ∷ d) (a, u) = ground (arith, get-sweep now span k d u)

get-sweep-none :
    (now span k : ℕ) (d : Dict (List ℕ)) → get k d ≡ none → get k (sweep now span d) ≡ none
unfolding get sweep
get-sweep-none now span k [] h = refl
get-sweep-none now span k ((j, w) ∷ d) h = ground (arith, get-sweep-none now span k d)

pub sweep-IsDict : (now span : ℕ) (d : Dict (List ℕ)) → IsDict d → IsDict (sweep now span d)
unfolding sweep IsDict
sweep-IsDict now span [] u = tt
sweep-IsDict now span ((j, w) ∷ d) (a, u) =
    ground (arith, sweep-IsDict now span d u, get-sweep-none now span j d a)
