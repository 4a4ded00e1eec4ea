-- ===== src/Core/Events.antt =====
-- Domain events and who may see them: src/arena/core/events.py. What a class of events overrides,
-- `visible_to`, and its name and fields belong to the game.
pub mod Visible
use agents_arena.Prelude.{
  ℕ, String, Bool, true, false, Option, none, some, List, [], ◌∷◌, any, ◌==◌, if◌then◌else◌,
}
use agents_arena.Core.Engine.{GameTypes}

abbrev pub event_audience_seats : List ℕ
event_audience_seats = 0 ∷ 1 ∷ []

pub record EventClass (T : GameTypes) : Type 0 where
  pub event_type : T.Event → String
  pub fields : T.Event → T.Json
  pub visible_to : T.Event → Option ℕ → Bool

module _ {T : GameTypes} (class : EventClass T) where
  unfoldable pub is_public : T.Event → Bool
  is_public event = class.visible_to event none

  -- `[seat for seat in seats if self.visible_to(seat)]`.
  seeing : T.Event → List ℕ → List ℕ
  seeing event [] = []
  seeing event (seat ∷ seats) =
      let rest = seeing event seats in
      if class.visible_to event (some seat) then seat ∷ rest else rest

  unfoldable pub audience : T.Event → Option (List ℕ)
  unfolding is_public seeing
  audience event = if is_public event then none else some (seeing event event_audience_seats)

-- A serialized event (`MatchEventPayload`). `marked` says that one of the keys `is_public` and
-- `audience` is there; without them the event is public.
pub record EventPayload (Json : Type 0) : Type 0 where
  pub event_type : String
  pub payload : Json
  pub is_public : Bool
  pub audience : Option (List ℕ)
  pub marked : Bool

-- `payload.get("audience") or ()`.
abbrev pub listed : Option (List ℕ) → List ℕ
listed none = []
listed (some seats) = seats

unfoldable pub event_payload_visible_to : {Json : Type 0} → EventPayload Json → Option ℕ → Bool
event_payload_visible_to payload none = payload.is_public
event_payload_visible_to payload (some viewer) =
    if payload.is_public then true else any (λ seat. viewer == seat) (listed payload.audience)
