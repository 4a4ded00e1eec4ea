-- ===== src/Games/Nim/Definition.antt =====
-- The definition of Nim, src/arena/games/nim/definition.py, for a serializer that is given.
use agents_arena.Prelude.{false}
use agents_arena.Core.Engine.{Serializer, GameDefinition}
use agents_arena.Games.Nim.{nim_types, nim_rules, NimConfig}

-- `engine` is the engine object of the definition, before a match stores its configuration.
abbrev pub build_nim_game_definition :
    {Json : Type 0} → NimConfig → Serializer (nim_types Json) → GameDefinition (nim_types Json)
build_nim_game_definition {Json} engine serializer = record {
  game_id = "nim";
  rules_engine = nim_rules Json;
  engine = engine;
  serializer = serializer;
  has_hidden_information = false;
  has_chance_nodes = false;
  has_simultaneous_moves = false;
}
