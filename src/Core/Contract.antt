-- ===== src/Core/Contract.antt =====
-- The contract between a game's rules engine and the code that drives it, as its clients rely on it
-- (src/arena/core/rules_engine.py; src/arena/testing/contracts.py tests it on sample matches).
use agents_arena.Prelude.{ℕ, Bool, true, false, Option, none, some, ◌≡◌, ◌↔◌, In}
use agents_arena.Core.Errors.{Error, ok, err}
use agents_arena.Core.Engine.{GameTypes, TransitionResult, RulesEngine}

abbrev pub is_some {ℓ} : {A : Type ℓ} → Option A → Bool
is_some none = false
is_some (some a) = true

-- What every engine keeps, on the states that `IsValid` describes.
pub record Lawful {T : GameTypes} (rules : RulesEngine T) (IsValid : T.State → Type 0)
    : Type 0 where
  -- A state is terminal exactly when it has a result.
  pub terminal-result :
      (engine : T.Engine) (s : T.State)
      → rules.is_terminal engine s ≡ is_some (rules.result engine s)
  -- The legal actions are exactly those that pass validation.
  pub legal-validate :
      (engine : T.Engine) (s : T.State) (seat : ℕ) (a : T.Action)
      → IsValid s
      → In a (rules.legal_actions engine s seat) ↔ (rules.validate_action engine s seat a ≡ ok tt)

-- What an engine keeps whose seats act one at a time.
pub record Sequential {T : GameTypes} (rules : RulesEngine T) (IsValid : T.State → Type 0)
    : Type 0 where
  -- A valid action is applied, to a valid state, and the result is the result of that state.
  pub apply-valid :
      (engine : T.Engine) (s : T.State) (seat : ℕ) (a : T.Action)
      → IsValid s
      → rules.validate_action engine s seat a ≡ ok tt
      → (t : TransitionResult T.State T.Event) × (rules.apply_action engine s seat a ≡ ok t)
        × IsValid t.state
        × (t.result ≡ rules.result engine t.state)
  -- An action that fails validation fails in the same way.
  pub apply-invalid :
      (engine : T.Engine) (s : T.State) (seat : ℕ) (a : T.Action) (e : Error)
      → rules.validate_action engine s seat a ≡ err e
      → rules.apply_action engine s seat a ≡ err e
