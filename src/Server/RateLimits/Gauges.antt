-- ===== src/Server/RateLimits/Gauges.antt =====
-- The counts of a gauge of src/arena/server/rate_limits.py, and what taking and giving back a slot
-- does to them.
use agents_arena.Prelude.{
  ℕ, ◌+◌, ◌-◌, ◌<◌, ◌≡◌, ◌≢◌, refl, inl, inr, none, some, [], ◌∷◌, arith, leb, ltb, Bool-cases,
}
use native.Mathlib.Decide.{ℕ_discrete}
use mathlib.Core.Path.{subst}
use agents_arena.Server.RateLimits.{Dict, get, get_or, put, pop, acquire_slot, release_slot}
use agents_arena.Server.RateLimits.Sliding.{get-put, get-put_other, IsDict, put-IsDict}

-- The count of a key.
unfoldable pub count : Dict ℕ → ℕ → ℕ
unfolding get get_or
count gauge key = get_or 0 (get key gauge)

pub pop-IsDict-get :
    {A : Type 0} (k : ℕ) (d : Dict A)
    → IsDict d
    → IsDict (pop k d) × (get k (pop k d) ≡ none) × ((j : ℕ) → j ≢ k → get j (pop k d) ≡ get j d)
unfolding get pop IsDict
pop-IsDict-get k [] u = (tt, refl, λ j n. refl)
pop-IsDict-get k ((i, v) ∷ d) (a, u) =
    let (u', absent, others) = pop-IsDict-get k d u in
    elim (ℕ_discrete k i) [
      | yes same ↦ (ground arith, ground arith, λ j n. ground arith)
      | no other ↦ (ground (arith, others i), ground arith, λ j n. ground (arith, others j n))
    ]

count-put : (k n : ℕ) (d : Dict ℕ) → count (put k n d) k ≡ n
unfolding count get_or
count-put k n d = rw (get-put k n d) refl

count-put_other : (k n j : ℕ) (d : Dict ℕ) → j ≢ k → count (put k n d) j ≡ count d j
unfolding count
count-put_other k n j d h = rw (get-put_other k j n d h) refl

pub count-pop : (k : ℕ) (d : Dict ℕ) → IsDict d → count (pop k d) k ≡ 0
unfolding count get_or
count-pop k d u = rw ((pop-IsDict-get k d u).1) refl

pub count-pop_other : (k j : ℕ) (d : Dict ℕ) → IsDict d → j ≢ k → count (pop k d) j ≡ count d j
unfolding count
count-pop_other k j d u h = rw ((pop-IsDict-get k d u).2 j h) refl

-- What taking a slot does to every count.
pub acquire_slot-count :
    (cap k : ℕ) (d d' : Dict ℕ)
    → IsDict d
    → acquire_slot cap d k ≡ some d'
    → IsDict d'
      × (count d k < cap)
      × (count d' k ≡ count d k + 1)
      × ((j : ℕ) → j ≢ k → count d' j ≡ count d j)
unfolding acquire_slot IsDict count
acquire_slot-count cap k d d' u h = elim (Bool-cases (leb cap (count d k))) [
  | inl full ↦ ground arith
  | inr free ↦
      let made : put k (count d k + 1) d ≡ d' = ground arith in
      subst
        (λ d'.
          IsDict d'
          × (count d k < cap)
          × (count d' k ≡ count d k + 1)
          × ((j : ℕ) → j ≢ k → count d' j ≡ count d j))
        made
        (
          put-IsDict k (count d k + 1) d u,
          ground arith,
          count-put k (count d k + 1) d,
          λ j n. count-put_other k (count d k + 1) j d n,
        )
]

-- What giving one back does.
pub release_slot-count :
    (k : ℕ) (d : Dict ℕ)
    → IsDict d
    → IsDict (release_slot d k)
      × (count (release_slot d k) k ≡ count d k - 1)
      × ((j : ℕ) → j ≢ k → count (release_slot d k) j ≡ count d j)
unfolding release_slot IsDict count
release_slot-count k d u = elim (Bool-cases (ltb 1 (count d k))) [
  | inl several ↦ rw several (
    put-IsDict k (count d k - 1) d u,
    count-put k (count d k - 1) d,
    λ j n. count-put_other k (count d k - 1) j d n,
  )
  | inr last ↦
      rw last (
        (pop-IsDict-get k d u).0,
        ground (arith, count-pop k d u),
        λ j n. count-pop_other k j d u n,
      )
]
