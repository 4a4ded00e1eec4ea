-- ===== src/Core/Errors.antt =====
-- The exceptions of src/arena/core/exceptions.py, with the built-in ones that the modelled code
-- raises. A function that may raise returns a `Result`; messages and details are left out.
use agents_arena.Prelude.{Bool, true, false, ◌≡◌, refl}

-- `out_of_fuel` is no exception of the program: a loop of the model that used up its rounds.
pub data Error : Type 0 where
  invalid_game_config incomplete_chance_support incomplete_simultaneous_support : Error
  incomplete_public_view wrong_player illegal_action game_finished chance_resolution_error : Error
  serialization_error rehydration_error unknown_game duplicate_game_registration : Error
  value_error key_error index_error attribute_error overflow_error assertion_error : Error
  runtime_state_error out_of_fuel : Error

-- `except ArenaCoreError`: the exceptions that derive from it.
abbrev pub is_core_error : Error → Bool
is_core_error invalid_game_config = true
is_core_error incomplete_chance_support = true
is_core_error incomplete_simultaneous_support = true
is_core_error incomplete_public_view = true
is_core_error wrong_player = true
is_core_error illegal_action = true
is_core_error game_finished = true
is_core_error chance_resolution_error = true
is_core_error serialization_error = true
is_core_error rehydration_error = true
is_core_error unknown_game = true
is_core_error duplicate_game_registration = true
is_core_error _ = false

-- What a call returns, or the exception that it raises.
pub data Result {ℓ} (Value : Type ℓ) : Type ℓ where
  err : (raised : Error) → Result Value
  ok : (value : Value) → Result Value

infixl 5 ◌>>◌ ◌>>=◌
-- A call whose value the rest of the body takes.
abbrev pub ◌>>=◌ {ℓ κ} :
    {Value : Type ℓ} {Next : Type κ} → Result Value → (Value → Result Next) → Result Next
err raised >>= rest = err raised
ok value >>= rest = rest value

-- A check, and what follows it if it raises nothing.
abbrev pub ◌>>◌ {ℓ} : {Value : Type ℓ} → Result (Unit {0}) → Result Value → Result Value
check >> next = check >>= λ passed. next

-- `if c: raise e`.
abbrev pub raise_if : Bool → Error → Result (Unit {0})
raise_if true e = err e
raise_if false e = ok tt

-- What a successful bind, and a successful check, went through.
pub >>=-eq-ok {ℓ κ} :
    {Value : Type ℓ} {Next : Type κ} (call : Result Value) (rest : Value → Result Next) {b : Next}
    → (call >>= rest) ≡ ok b
    → (value : Value) × (call ≡ ok value) × (rest value ≡ ok b)
>>=-eq-ok (err raised) rest returned = cc
>>=-eq-ok (ok value) rest returned = (value, refl, returned)

pub raise_if-eq-ok : (b : Bool) (e : Error) {u : Unit} → raise_if b e ≡ ok u → b ≡ false
raise_if-eq-ok true e h = cc
raise_if-eq-ok false e h = refl
