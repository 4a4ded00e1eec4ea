-- ===== src/Core/Registry/Lookup.antt =====
-- Looking up what was registered, src/arena/core/registry.py.
use agents_arena.Prelude.{
  String, ◌≡◌, ◌∙◌, refl, ap, false, List, [], ◌∷◌, ◌++◌, append_assoc, append-nil, same_string,
  same_string_refl, Bool-cases, inl, inr, arith,
}
use agents_arena.Core.Errors.{ok, >>=-eq-ok, raise_if-eq-ok, raise_if, duplicate_game_registration}
use agents_arena.Core.Nodes.{validate_chance_support}
use agents_arena.Core.PublicView.{validate_public_view}
use agents_arena.Core.Simultaneous.{validate_simultaneous_support}
use agents_arena.Core.Registry.{
  AnyGame, GameRegistry, id_of, empty_registry, holds, register, get, list_games, register_all,
}

-- The three checks of a definition pass.
pub record IsChecked (game : AnyGame) : Type 0 where
  pub public_view : validate_public_view game.definition ≡ ok tt
  pub chance : validate_chance_support game.definition ≡ ok tt
  pub simultaneous : validate_simultaneous_support game.definition ≡ ok tt

register-eq_ok :
    (registry registry' : GameRegistry) (game : AnyGame)
    → register registry game ≡ ok registry'
    → IsChecked game × (holds (id_of game) registry ≡ false) × (registry' ≡ registry ++ game ∷ [])
unfolding register
register-eq_ok registry registry' game h =
    let (u, viewed, h₁) = >>=-eq-ok (validate_public_view game.definition) _ h in
    let (v, chances, h₂) = >>=-eq-ok (validate_chance_support game.definition) _ h₁ in
    let (w, joint, h₃) = >>=-eq-ok (validate_simultaneous_support game.definition) _ h₂ in
    let (x, new, h₄) =
      >>=-eq-ok (raise_if (holds (id_of game) registry) duplicate_game_registration) _ h₃ in
    (
      record { public_view = viewed; chance = chances; simultaneous = joint },
      raise_if-eq-ok _ _ new,
      cc,
    )

-- What is found stays found when games are added behind.
get-append :
    (registry more : GameRegistry) (game_id : String) {game : AnyGame}
    → get registry game_id ≡ ok game
    → get (registry ++ more) game_id ≡ ok game
unfolding get
get-append [] more game_id h = cc
get-append (first ∷ registry) more game_id h =
    elim (Bool-cases (same_string game_id (id_of first))) [
      | inl here ↦ rw here (ground (arith, here, h))
      | inr later ↦ rw later (get-append registry more game_id (ground (arith, later, h)))
    ]

get-new :
    (registry : GameRegistry) (game : AnyGame)
    → holds (id_of game) registry ≡ false
    → get (registry ++ game ∷ []) (id_of game) ≡ ok game
unfolding get holds
get-new [] game new = rw (same_string_refl (id_of game)) refl
get-new (first ∷ registry) game new = elim (Bool-cases (same_string (id_of game) (id_of first))) [
  | inl here ↦ ground (arith, here, new)
  | inr later ↦ rw later (get-new registry game (ground (arith, later, new)))
]

register_all-list :
    (registry registry' : GameRegistry) (games : List AnyGame)
    → register_all registry games ≡ ok registry'
    → registry' ≡ registry ++ games
unfolding register_all
register_all-list registry registry' [] h = cc (append-nil registry)
register_all-list registry registry' (game ∷ games) h =
    let (next, first, rest) =
      >>=-eq-ok (register registry game) (λ next. register_all next games) h in
    register_all-list next registry' games rest
    ∙ ap (λ r. r ++ games) (register-eq_ok registry next game first).2
    ∙ append_assoc registry (game ∷ []) games

register_all-gets :
    (registry registry' : GameRegistry) (before after : List AnyGame) (game : AnyGame)
    → register_all registry (before ++ game ∷ after) ≡ ok registry'
    → (get registry' (id_of game) ≡ ok game) × IsChecked game
unfolding register_all
register_all-gets registry registry' [] after game h =
    let (next, first, rest) =
      >>=-eq-ok (register registry game) (λ next. register_all next after) h in
    let (checked, new, added) = register-eq_ok registry next game first in
    let found : get next (id_of game) ≡ ok game = rw added (get-new registry game new) in
    (
      rw (register_all-list next registry' after rest) (get-append next after (id_of game) found),
      checked,
    )
register_all-gets registry registry' (other ∷ before) after game h =
    let (next, first, rest) =
      >>=-eq-ok (register registry other) (λ next. register_all next (before ++ game ∷ after)) h in
    register_all-gets next registry' before after game rest

-- Games that were all registered in an empty registry are listed in the order of their registration,
-- and each of them is found under its identifier and passes the three checks of a definition.
pub get-register_all :
    (registry : GameRegistry) (before after : List AnyGame) (game : AnyGame)
    → register_all empty_registry (before ++ game ∷ after) ≡ ok registry
    → (list_games registry ≡ before ++ game ∷ after)
      × (get registry (id_of game) ≡ ok game)
      × IsChecked game
unfolding list_games
get-register_all registry before after game h =
    let (found, checked) = register_all-gets [] registry before after game h in
    (register_all-list [] registry (before ++ game ∷ after) h, found, checked)
