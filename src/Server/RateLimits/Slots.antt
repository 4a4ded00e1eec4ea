-- ===== src/Server/RateLimits/Slots.antt =====
-- Lists of slots and windows that are what is left of them, for `reserve_action` of
-- src/arena/server/rate_limits.py.
use agents_arena.Prelude.{
  ℕ, zero, suc, ◌+◌, ◌≤◌, ◌<◌, ◌≡◌, refl, sym, ap, ◌∙◌, inl, inr, Bool, true, ◌&&◌, some, List, [],
  ◌∷◌, ◌++◌, arith, length, get_elem?, leb, Bool-cases, length-get_elem?, append_assoc,
}
use native.Mathlib.Decide.{ℕ_discrete}
use agents_arena.Server.RateLimits.{prune}

-- Slots at least a span apart from those that stand `cap` places later.
unfoldable pub IsSpaced : ℕ → ℕ → List ℕ → Type 0
IsSpaced cap span log =
    (i x y : ℕ) → get_elem? log i ≡ some x → get_elem? log (i + cap) ≡ some y → x + span ≤ y

pub length-append : (xs ys : List ℕ) → length (xs ++ ys) ≡ length xs + length ys
length-append [] ys = omega arith
length-append (x ∷ xs) ys = omega (arith, length-append xs ys)

pub append-left : (xs ys : List ℕ) (i : ℕ) → i < length xs → get_elem? (xs ++ ys) i ≡ get_elem? xs i
append-left [] ys i l = elim l [ ]
append-left (x ∷ xs) ys zero l = refl
append-left (x ∷ xs) ys (suc i) l = append-left xs ys i (omega arith)

pub append-right : (xs ys : List ℕ) (i : ℕ) → get_elem? (xs ++ ys) (length xs + i) ≡ get_elem? ys i
append-right [] ys i = ground arith
append-right (x ∷ xs) ys i = ground (arith, append-right xs ys i)

-- The elements of the list are at most `now - span`.
unfoldable pub AreOld : ℕ → ℕ → List ℕ → Type 0
AreOld now span xs = (i x : ℕ) → get_elem? xs i ≡ some x → x + span ≤ now

-- A window is what is left of the log of all slots, those dropped being old.
pub record IsRest (now span : ℕ) (log w : List ℕ) : Type 0 where
  pub dropped : List ℕ
  pub whole : log ≡ dropped ++ w
  pub old : AreOld now span dropped

pub AreOld-cons :
    (now span x : ℕ) (xs : List ℕ) → x + span ≤ now → AreOld now span xs → AreOld now span (x ∷ xs)
unfolding AreOld
AreOld-cons now span x xs l o zero y h = ground arith
AreOld-cons now span x xs l o (suc i) y h = o i y h

pub AreOld-append :
    (now span : ℕ) (xs ys : List ℕ)
    → AreOld now span xs
    → AreOld now span ys
    → AreOld now span (xs ++ ys)
unfolding AreOld
AreOld-append now span [] ys o p = p
AreOld-append now span (x ∷ xs) ys o p =
    AreOld-cons now span x (xs ++ ys) (o 0 x refl)
      (AreOld-append now span xs ys (λ i y h. o (suc i) y h) p)

pub prune-IsRest : (now span : ℕ) (w : List ℕ) → IsRest now span w (prune now span w)
unfolding prune AreOld
prune-IsRest now span [] = record { dropped = []; whole = refl; old = λ i x h. cc }
prune-IsRest now span (x ∷ w) = elim (Bool-cases (leb (x + span) now)) [
  | inl gone ↦
      let r = prune-IsRest now span w in
      rw gone (record {
        dropped = x ∷ r.dropped;
        whole = ap (x ∷◌) r.whole;
        old = AreOld-cons now span x r.dropped (ground arith) r.old;
      })
  | inr kept ↦ rw kept (record { dropped = []; whole = refl; old = λ i y h. cc })
]

pub prune-again :
    (now later span : ℕ) (log w : List ℕ)
    → now ≤ later
    → IsRest now span log w
    → IsRest later span log (prune later span w)
unfolding AreOld
prune-again now later span log w l r =
    let q = prune-IsRest later span w in
    record {
      dropped = r.dropped ++ q.dropped;
      whole =
          r.whole
          ∙ ap (r.dropped ++◌) q.whole
          ∙ sym (append_assoc r.dropped q.dropped (prune later span w));
      old =
          AreOld-append later span r.dropped q.dropped (λ i x h. omega (arith, r.old i x h)) q.old;
    }

-- A slot after the log keeps it spaced.
pub IsSpaced-append :
    (cap span slot : ℕ) (log : List ℕ)
    → 1 ≤ cap
    → IsSpaced cap span log
    → ((i x : ℕ) → i + cap ≡ length log → get_elem? log i ≡ some x → x + span ≤ slot)
    → IsSpaced cap span (log ++ slot ∷ [])
unfolding IsSpaced
IsSpaced-append cap span slot log one spaced next i x y at_i at_cap =
    let inside = length-get_elem? (log ++ slot ∷ []) (i + cap) at_cap in
    let size = length-append log (slot ∷ []) in
    let before : get_elem? log i ≡ some x =
      sym (append-left log (slot ∷ []) i (omega arith)) ∙ at_i in
    elim (ℕ_discrete (i + cap) (length log)) [
      | no earlier ↦
          spaced i x y before (sym (append-left log (slot ∷ []) (i + cap) (omega arith)) ∙ at_cap)
      | yes last ↦
          let place : i + cap ≡ length log + 0 = omega arith in
          let same : some y ≡ some slot =
            sym at_cap
            ∙ ap (λ k. get_elem? (log ++ slot ∷ []) k) place
            ∙ append-right log (slot ∷ []) 0 in
          ground (arith, next i x last before)
    ]

-- Whether each element of the first list is a span or more before its partner in the second.
pub are_apart : ℕ → List ℕ → List ℕ → Bool
are_apart span (x ∷ xs) (y ∷ ys) = leb (x + span) y && are_apart span xs ys
are_apart span _ _ = true

pub drop : ℕ → List ℕ → List ℕ
drop zero xs = xs
drop (suc n) [] = []
drop (suc n) (x ∷ xs) = drop n xs

pub get_elem?-drop : (n i : ℕ) (xs : List ℕ) → get_elem? (drop n xs) i ≡ get_elem? xs (i + n)
unfolding drop
get_elem?-drop zero i xs = ground arith
get_elem?-drop (suc n) i [] = ground arith
get_elem?-drop (suc n) i (x ∷ xs) = ground (arith, get_elem?-drop n i xs)

pub apart :
    (span : ℕ) (xs ys : List ℕ)
    → ((i x y : ℕ) → get_elem? xs i ≡ some x → get_elem? ys i ≡ some y → x + span ≤ y)
    → are_apart span xs ys ≡ true
unfolding are_apart
apart span [] ys h = refl
apart span (x ∷ xs) [] h = refl
apart span (x ∷ xs) (y ∷ ys) h =
    ground (arith, h 0 x y refl refl, apart span xs ys (λ i. h (suc i)))

pub IsSpaced-apart :
    (cap span : ℕ) (log : List ℕ) → IsSpaced cap span log → are_apart span log (drop cap log) ≡ true
unfolding IsSpaced
IsSpaced-apart cap span log s =
    apart span log (drop cap log) (λ i x y p q. s i x y p (sym (get_elem?-drop cap i log) ∙ q))
