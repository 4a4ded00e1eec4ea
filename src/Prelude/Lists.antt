-- ===== src/Prelude/Lists.antt =====
-- Lists measured and indexed by native numbers, and the sorting of Python's `sorted`.
use Prim.Native.Nat.{ℕ, zero, suc, ◌+◌, ◌<◌}
use mathlib.Core.Path.{◌≡◌, refl}
use mathlib.Core.List.{List, [], ◌∷◌, ◌++◌}
use mathlib.Core.Logic.{◌⊎◌, inl, inr}
use mathlib.Core.Option.{Option, none, some}
use mathlib.Core.Bool.{Bool, true, false, ◌&&◌}
use native.Mathlib.Omega.{arith}
use agents_arena.Prelude.Tests.{◌==◌, leb, if◌then◌else◌}

module _ {ℓ} {A : Type ℓ} where
  abbrev pub length : List A → ℕ
  length [] = 0
  length (x ∷ xs) = suc (length xs)

  abbrev pub get_elem? : List A → ℕ → Option A
  get_elem? [] i = none
  get_elem? (x ∷ xs) zero = some x
  get_elem? (x ∷ xs) (suc i) = get_elem? xs i

  abbrev pub replicate : ℕ → A → List A
  replicate zero a = []
  replicate (suc n) a = a ∷ replicate n a

  -- Python's `all` and `any` over a generator.
  abbrev pub all : (A → Bool) → List A → Bool
  all p [] = true
  all p (x ∷ xs) = p x && all p xs

  abbrev pub any : (A → Bool) → List A → Bool
  any p [] = false
  any p (x ∷ xs) = if p x then true else any p xs

  pub length-append : (xs ys : List A) → length (xs ++ ys) ≡ length xs + length ys
  length-append [] ys = omega arith
  length-append (x ∷ xs) ys = omega (arith, length-append xs ys)

-- An index that holds an element lies below the length, and the other way round.
pub length-get_elem? {ℓ} :
    {A : Type ℓ} (xs : List A) (i : ℕ) {x : A} → get_elem? xs i ≡ some x → i < length xs
length-get_elem? [] i h = cc
length-get_elem? (y ∷ ys) zero h = omega arith
length-get_elem? (y ∷ ys) (suc i) h = omega (arith, length-get_elem? ys i h)

pub get_elem?-length {ℓ} :
    {A : Type ℓ} (xs : List A) (i : ℕ) → i < length xs → (x : A) × (get_elem? xs i ≡ some x)
get_elem?-length [] i h = elim h [ ]
get_elem?-length (y ∷ ys) zero h = (y, refl)
get_elem?-length (y ∷ ys) (suc i) h = get_elem?-length ys i (omega arith)

abbrev pub sum : List ℕ → ℕ
sum [] = 0
sum (x ∷ xs) = x + sum xs

-- Equality of two lists of numbers.
abbrev pub list_eq : List ℕ → List ℕ → Bool
list_eq [] [] = true
list_eq [] (y ∷ ys) = false
list_eq (x ∷ xs) [] = false
list_eq (x ∷ xs) (y ∷ ys) = x == y && list_eq xs ys

pub list_eq_refl : (xs : List ℕ) → list_eq xs xs ≡ true
list_eq_refl [] = refl
list_eq_refl (x ∷ xs) = ground (arith, list_eq_refl xs)

pub list_eq→≡ : (xs ys : List ℕ) → list_eq xs ys ≡ true → xs ≡ ys
list_eq→≡ [] [] h = refl
list_eq→≡ [] (y ∷ ys) h = cc
list_eq→≡ (x ∷ xs) [] h = cc
list_eq→≡ (x ∷ xs) (y ∷ ys) h = ground (arith, list_eq→≡ xs ys)

-- `sorted` of numbers.
abbrev pub insert_sorted : ℕ → List ℕ → List ℕ
insert_sorted x [] = x ∷ []
insert_sorted x (y ∷ ys) = let rest = insert_sorted x ys in if leb x y then x ∷ y ∷ ys else y ∷ rest

abbrev pub sorted : List ℕ → List ℕ
sorted [] = []
sorted (x ∷ xs) = insert_sorted x (sorted xs)

-- `sorted(set(xs))`: in order, each number once.
abbrev pub insert_unique : ℕ → List ℕ → List ℕ
insert_unique x [] = x ∷ []
insert_unique x (y ∷ ys) =
    let rest = insert_unique x ys in
    if x == y then y ∷ ys else if leb x y then x ∷ y ∷ ys else y ∷ rest

abbrev pub sorted_set : List ℕ → List ℕ
sorted_set [] = []
sorted_set (x ∷ xs) = insert_unique x (sorted_set xs)

-- Membership that keeps its evidence, and the membership of an appended list.
abbrev pub In : {A : Type 0} → A → List A → Type 0
In x [] = ⊥
In x (y ∷ ys) = (x ≡ y) ⊎ In x ys

pub In-append_left : {A : Type 0} (x : A) (xs ys : List A) → In x xs → In x (xs ++ ys)
In-append_left x [] ys h = elim h [ ]
In-append_left x (z ∷ xs) ys (inl e) = inl e
In-append_left x (z ∷ xs) ys (inr h) = inr (In-append_left x xs ys h)

pub In-append_right : {A : Type 0} (x : A) (xs ys : List A) → In x ys → In x (xs ++ ys)
In-append_right x [] ys h = h
In-append_right x (z ∷ xs) ys h = inr (In-append_right x xs ys h)

pub In-append : {A : Type 0} (x : A) (xs ys : List A) → In x (xs ++ ys) → In x xs ⊎ In x ys
In-append x [] ys h = inr h
In-append x (z ∷ xs) ys (inl e) = inl (inl e)
In-append x (z ∷ xs) ys (inr h) = elim (In-append x xs ys h) [ inl l ↦ inl (inr l) | inr r ↦ inr r ]

-- A member of a list that a test may empty.
pub In-if :
    {A : Type 0} (x : A) (b : Bool) (xs : List A)
    → In x (if b then [] else xs)
    → (b ≡ false) × In x xs
In-if x true xs h = elim h [ ]
In-if x false xs h = (refl, h)
