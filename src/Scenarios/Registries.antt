-- ===== src/Scenarios/Registries.antt =====
-- A registry with two games.
use agents_arena.Prelude.{◌≡◌, refl, [], ◌∷◌}
use agents_arena.Core.Errors.{ok, err, duplicate_game_registration}
use agents_arena.Core.Nodes.{validate_chance_support, rules_engine_declares_chance}
use agents_arena.Core.PublicView.{validate_public_view}
use agents_arena.Core.Simultaneous.{
  validate_simultaneous_support, rules_engine_declares_simultaneous,
}
use agents_arena.Core.Registry.{
  AnyGame, id_of, empty_registry, holds, register, get, list_games, register_all,
}
use agents_arena.Core.Registry.Lookup.{IsChecked, get-register_all}
use agents_arena.Scenarios.Matches.{pig}
use agents_arena.Scenarios.Policies.{nim}

abbrev nim_game : AnyGame
nim_game = record { types = _; definition = nim }

abbrev pig_game : AnyGame
pig_game = record { types = _; definition = pig }

both_registered :
    register_all empty_registry (nim_game ∷ pig_game ∷ []) ≡ ok (nim_game ∷ pig_game ∷ [])
unfolding register_all register holds validate_public_view validate_chance_support
    rules_engine_declares_chance validate_simultaneous_support rules_engine_declares_simultaneous
both_registered = refl

registered_twice : register (nim_game ∷ []) nim_game ≡ err duplicate_game_registration
unfolding register holds validate_public_view validate_chance_support validate_simultaneous_support
    rules_engine_declares_simultaneous
registered_twice = refl

get-register_all_example :
    (list_games (nim_game ∷ pig_game ∷ []) ≡ nim_game ∷ pig_game ∷ [])
    × (get (nim_game ∷ pig_game ∷ []) (id_of pig_game) ≡ ok pig_game)
    × IsChecked pig_game
get-register_all_example =
    get-register_all (nim_game ∷ pig_game ∷ []) (nim_game ∷ []) [] pig_game both_registered
