-- ===== src/Core/Events/Visible.antt =====
-- Who sees a serialized event, src/arena/core/events.py and src/arena/match/transcript.py.
use agents_arena.Prelude.{
  ℕ, zero, suc, ◌≡◌, refl, Bool, true, false, ◌||◌, some, [], ◌∷◌, any, ◌==◌, arith, if◌then◌else◌,
}
use agents_arena.Core.Engine.{GameTypes}
use agents_arena.Core.Events.{EventClass, is_public, seeing, audience, listed}

heard0 :
    (a b : Bool)
    → any (λ s. 0 == s) (if a then 0 ∷ (if b then 1 ∷ [] else []) else (if b then 1 ∷ [] else []))
      ≡ a
heard0 true b = refl
heard0 false true = refl
heard0 false false = refl

heard1 :
    (a b : Bool)
    → any (λ s. 1 == s) (if a then 0 ∷ (if b then 1 ∷ [] else []) else (if b then 1 ∷ [] else []))
      ≡ b
heard1 true true = refl
heard1 true false = refl
heard1 false true = refl
heard1 false false = refl

module _ {T : GameTypes} (class : EventClass T) where
  -- The audience of a private event holds a seat exactly if the event is visible to it.
  pub audience_visible :
      (event : T.Event) (seat : ℕ)
      → (seat == 0 || seat == 1) ≡ true
      → is_public class event ≡ false
      → any (λ s. seat == s) (listed (audience class event)) ≡ class.visible_to event (some seat)
  unfolding audience seeing
  audience_visible event zero either private =
      rw private (heard0 (class.visible_to event (some 0)) (class.visible_to event (some 1)))
  audience_visible event (suc zero) either private =
      rw private (heard1 (class.visible_to event (some 0)) (class.visible_to event (some 1)))
  audience_visible event (suc (suc n)) either private = ground arith
