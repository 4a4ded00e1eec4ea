-- ===== src/Server/RateLimits/Connections.antt =====
-- `acquire_connection` and `release_connection` of src/arena/server/rate_limits.py, and the gauges.
use agents_arena.Prelude.{
  ℕ, ◌≡◌, ◌≢◌, refl, ap, ◌∙◌, ◌⊎◌, inl, inr, Bool, true, false, none, some, arith, Option-cases,
}
use native.Mathlib.Decide.{ℕ_discrete}
use agents_arena.Server.RateLimits.{
  Dict, RateLimiter, acquire_slot, release_slot, acquire_ip, release_ip, acquire_match_slot,
  release_match_slot, acquire_connection, release_connection,
}
use agents_arena.Server.RateLimits.Sliding.{IsDict}
use agents_arena.Server.RateLimits.Gauges.{count, acquire_slot-count, release_slot-count}

-- The counts of two gauges agree.
IsSame : Dict ℕ → Dict ℕ → Type 0
IsSame d e = (key : ℕ) → count d key ≡ count e key

-- The gauges of two limiters have the same counts.
pub IsSameGauges : RateLimiter → RateLimiter → Type 0
unfolding IsSame
IsSameGauges l k =
    IsSame l.conns_per_ip k.conns_per_ip
    × IsSame l.conns_per_match k.conns_per_match
    × IsSame l.spectators_of k.spectators_of

-- No gauge has two entries for a key.
unfoldable pub IsKeyed : RateLimiter → Type 0
IsKeyed l = IsDict l.conns_per_ip × IsDict l.conns_per_match × IsDict l.spectators_of

release-acquire_slot :
    (cap k : ℕ) (d d' : Dict ℕ)
    → IsDict d
    → acquire_slot cap d k ≡ some d'
    → IsSame (release_slot d' k) d
unfolding IsSame
release-acquire_slot cap k d d' u h j =
    let (u', free, there, others) = acquire_slot-count cap k d d' u h in
    let (u″, back, rest) = release_slot-count k d' u' in
    elim (ℕ_discrete j k) [
      | yes same ↦ rw same (omega (arith, back, there))
      | no other ↦ rest j other ∙ others j other
    ]

-- An address's slot is taken, or nothing of the gauges is changed.
acquire_ip-cases :
    (l : RateLimiter) (ip now : ℕ)
    → (((acquire_ip l ip now).1 ≡ none)
        × (acquire_slot l.caps.max_ws_per_ip l.conns_per_ip ip
            ≡ some (acquire_ip l ip now).0.conns_per_ip)
        × ((acquire_ip l ip now).0.conns_per_match ≡ l.conns_per_match)
        × ((acquire_ip l ip now).0.spectators_of ≡ l.spectators_of))
      ⊎ (((acquire_ip l ip now).1 ≢ none)
          × ((acquire_ip l ip now).0.conns_per_ip ≡ l.conns_per_ip)
          × ((acquire_ip l ip now).0.conns_per_match ≡ l.conns_per_match)
          × ((acquire_ip l ip now).0.spectators_of ≡ l.spectators_of))
unfolding acquire_ip
acquire_ip-cases l ip now = ground arith

-- What a match slot's acquire, and the release after it, do.
acquire_match_slot-refused :
    (l : RateLimiter) (m : ℕ) (spectator : Bool)
    → (acquire_match_slot l m spectator).1 ≢ none
    → (acquire_match_slot l m spectator).0 ≡ l
unfolding acquire_match_slot
acquire_match_slot-refused l m spectator h = ground arith

acquire_match_slot-conns :
    (l : RateLimiter) (m : ℕ) (spectator : Bool)
    → (acquire_match_slot l m spectator).0.conns_per_ip ≡ l.conns_per_ip
unfolding acquire_match_slot
acquire_match_slot-conns l m spectator = ground arith

release-acquire_match_slot :
    (l : RateLimiter) (m : ℕ) (spectator : Bool)
    → IsDict l.conns_per_match
    → IsDict l.spectators_of
    → (acquire_match_slot l m spectator).1 ≡ none
    → IsSame
        (release_match_slot (acquire_match_slot l m spectator).0 m spectator).conns_per_match
        l.conns_per_match
      × IsSame
          (release_match_slot (acquire_match_slot l m spectator).0 m spectator).spectators_of
          l.spectators_of
unfolding acquire_match_slot release_match_slot IsSame
release-acquire_match_slot l m true u v h =
    elim (Option-cases (acquire_slot l.caps.max_spectators_per_match l.spectators_of m)) [
      | inl full ↦ ground arith
      | inr (d, taken) ↦
          rw (taken, acquire_match_slot)
            (
              λ k. refl,
              release-acquire_slot l.caps.max_spectators_per_match m l.spectators_of d v taken,
            )
    ]
release-acquire_match_slot l m false u v h =
    elim (Option-cases (acquire_slot l.caps.max_conns_per_match l.conns_per_match m)) [
      | inl full ↦ ground arith
      | inr (d, taken) ↦
          rw (taken, acquire_match_slot)
            (
              release-acquire_slot l.caps.max_conns_per_match m l.conns_per_match d u taken,
              λ k. refl,
            )
    ]

release_match_slot-release_ip :
    (l : RateLimiter) (ip m : ℕ) (spectator : Bool)
    → ((release_match_slot (release_ip l ip) m spectator).conns_per_ip
        ≡ release_slot l.conns_per_ip ip)
      × ((release_match_slot (release_ip l ip) m spectator).conns_per_match
          ≡ (release_match_slot l m spectator).conns_per_match)
      × ((release_match_slot (release_ip l ip) m spectator).spectators_of
          ≡ (release_match_slot l m spectator).spectators_of)
unfolding release_match_slot release_ip
release_match_slot-release_ip l ip m spectator = ground arith

-- The two ways of a connection: both slots are taken, or one of them is refused.
acquire_connection-cases :
    (l : RateLimiter) (ip m : ℕ) (spectator : Bool) (now : ℕ)
    → (((acquire_ip l ip now).1 ≡ none)
        × ((acquire_match_slot (acquire_ip l ip now).0 m spectator).1 ≡ none)
        × (acquire_connection l ip m spectator now
            ≡ ((acquire_match_slot (acquire_ip l ip now).0 m spectator).0, none)))
      ⊎ (((acquire_ip l ip now).1 ≢ none)
          × (acquire_connection l ip m spectator now ≡ acquire_ip l ip now))
      ⊎ (((acquire_ip l ip now).1 ≡ none)
          × ((acquire_match_slot (acquire_ip l ip now).0 m spectator).1 ≢ none)
          × ((acquire_connection l ip m spectator now).1 ≢ none)
          × ((acquire_connection l ip m spectator now).0
              ≡ release_ip (acquire_match_slot (acquire_ip l ip now).0 m spectator).0 ip))
unfolding acquire_connection
acquire_connection-cases l ip m spectator now = ground arith

-- A connection that is refused, by any of the caps, leaves the count of every gauge as it was.
pub acquire_connection-refused :
    (l : RateLimiter) (ip m : ℕ) (spectator : Bool) (now : ℕ)
    → IsKeyed l
    → (acquire_connection l ip m spectator now).1 ≢ none
    → IsSameGauges (acquire_connection l ip m spectator now).0 l
unfolding IsKeyed IsSameGauges IsSame release_ip
acquire_connection-refused l ip m spectator now (u, v, w) h =
    elim (acquire_connection-cases l ip m spectator now) [
      | inl (opened, taken, made) ↦ absurd (h (rw made refl))
      | inr (inl (closed, made)) ↦ elim (acquire_ip-cases l ip now) [
        | inl (opened, b, c, d) ↦ absurd (closed opened)
        | inr (shut, a, b, c) ↦ rw (made, a, b, c) (λ k. refl, λ k. refl, λ k. refl)
      ]
      | inr (inr (opened, full, answer, made)) ↦ elim (acquire_ip-cases l ip now) [
        | inl (o, taken, b, c) ↦
            rw (made, acquire_match_slot-refused (acquire_ip l ip now).0 m spectator full, b, c)
              (
                release-acquire_slot l.caps.max_ws_per_ip ip l.conns_per_ip
                    (acquire_ip l ip now).0.conns_per_ip u taken,
                λ k. refl,
                λ k. refl,
              )
        | inr (shut, b, c, d) ↦ absurd (shut opened)
      ]
    ]

-- Releasing a connection that was just acquired brings every gauge back to what it was before.
pub release-acquire_connection :
    (l : RateLimiter) (ip m : ℕ) (spectator : Bool) (now : ℕ)
    → IsKeyed l
    → (acquire_connection l ip m spectator now).1 ≡ none
    → IsSameGauges (release_connection (acquire_connection l ip m spectator now).0 ip m spectator) l
unfolding IsKeyed IsSameGauges IsSame release_connection
release-acquire_connection l ip m spectator now (u, v, w) h =
    elim (acquire_connection-cases l ip m spectator now) [
      | inr (inl (closed, made)) ↦ absurd (closed (cc))
      | inr (inr (opened, full, answer, made)) ↦ absurd (answer h)
      | inl (opened, taken, made) ↦ elim (acquire_ip-cases l ip now) [
        | inr (shut, b, c, d) ↦ absurd (shut opened)
        | inl (o, slot, b, c) ↦
            let l₁ = (acquire_ip l ip now).0 in
            let l₂ = (acquire_match_slot l₁ m spectator).0 in
            let (e, f, g) = release_match_slot-release_ip l₂ ip m spectator in
            let (x, y) = release-acquire_match_slot l₁ m spectator (rw b v) (rw c w) taken in
            rw (made, e, f, g)
              (
                rw (acquire_match_slot-conns l₁ m spectator) (
                    release-acquire_slot l.caps.max_ws_per_ip ip l.conns_per_ip l₁.conns_per_ip u
                      slot),
                λ k. x k ∙ ap (λ d. count d k) b,
                λ k. y k ∙ ap (λ d. count d k) c,
              )
      ]
    ]
