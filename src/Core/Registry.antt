-- ===== src/Core/Registry.antt =====
-- src/arena/core/registry.py: the definitions of games under their identifiers. The registry is the
-- dictionary `_definitions`, in insertion order, and registering returns the new one.
pub mod Lookup
use agents_arena.Prelude.{
  String, Bool, false, List, [], ◌∷◌, ◌++◌, same_string, ◌||◌, if◌then◌else◌,
}
use agents_arena.Core.Errors.{
  Result, ok, err, ◌>>=◌, ◌>>◌, raise_if, duplicate_game_registration, unknown_game,
}
use agents_arena.Core.Engine.{GameTypes, GameDefinition}
use agents_arena.Core.Nodes.{validate_chance_support}
use agents_arena.Core.PublicView.{validate_public_view}
use agents_arena.Core.Simultaneous.{validate_simultaneous_support}

-- A definition with the classes of its game.
pub record AnyGame : Type 1 where
  pub types : GameTypes
  pub definition : GameDefinition types

abbrev pub id_of : AnyGame → String
id_of game = game.definition.game_id

abbrev pub GameRegistry : Type 1
GameRegistry = List AnyGame

abbrev pub empty_registry : GameRegistry
empty_registry = []

-- `game_id in self._definitions`.
unfoldable pub holds : String → GameRegistry → Bool
holds game_id [] = false
holds game_id (game ∷ games) = same_string game_id (id_of game) || holds game_id games

unfoldable pub register : GameRegistry → AnyGame → Result GameRegistry
unfolding holds
register registry game = do
  validate_public_view game.definition
  validate_chance_support game.definition
  validate_simultaneous_support game.definition
  raise_if (holds (id_of game) registry) duplicate_game_registration
  ok (registry ++ game ∷ [])

unfoldable pub get : GameRegistry → String → Result AnyGame
get [] game_id = err unknown_game
get (game ∷ games) game_id =
    let later = get games game_id in if same_string game_id (id_of game) then ok game else later

-- `list`.
unfoldable pub list_games : GameRegistry → List AnyGame
list_games registry = registry

-- Registering one game after the other.
unfoldable pub register_all : GameRegistry → List AnyGame → Result GameRegistry
unfolding register
register_all registry [] = ok registry
register_all registry (game ∷ games) = do
  registry' ← register registry game
  register_all registry' games
