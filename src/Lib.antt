-- ===== src/Lib.antt =====
-- AgentsArena: a model of the arena's core in which games are played by agents, with its theorems.
--
-- A game is a definition (src/arena/core/game_definition.py): a rules engine and a serializer, with
-- hooks for chance nodes, joint turns and hidden information. A local match runs one definition; it
-- asks the engine to apply a turn, records the turn with a snapshot, and resolves the chance nodes
-- that follow with a generator. A transcript is validated by replaying its turns without one. The
-- server in front of it bounds what a client may do.
--
-- Prelude: names of the libraries, lists (Prelude/Lists), strings (Prelude/Strings), Boolean tests (Prelude/Tests).
-- Core/Errors: the exceptions of src/arena/core/exceptions.py as values; a function that may raise
--   returns a Result. Messages are left out.
-- Core/Chance: ChanceRng of src/arena/core/chance.py. The BLAKE2b digest is the parameter `block`. The
--   endless loop of `draw` has a number of rounds, which is enough when one of them is accepted.
-- Core/Engine, Core/Nodes: the records that a game supplies, and the chance hooks of
--   src/arena/core/chance.py. A hook that Python finds by `getattr` is an optional field,
--   and a function of its own: one that calls another method of its object is a field that agrees with it.
-- Core/Simultaneous: joint turns, src/arena/core/simultaneous.py.
-- Core/PublicView: what a viewer is shown, src/arena/core/public_view.py.
-- Core/Registry: src/arena/core/registry.py. A definition is registered with the classes of its game.
-- Core/Contract: the contract between a rules engine and its clients.
-- Match/LocalMatch: src/arena/match/local_match.py (start_match, apply_match_action,
--   apply_match_joint_action, apply_match_chance, _drain_chance_nodes), and the replay loop of
--   src/arena/match/transcript.py. The cap of 128 consecutive chance steps is that of the source. The
--   copy of the engine that a match makes is a value that each method takes.
-- Core/Events: who may see an event, src/arena/core/events.py. What a game's event classes define is a
--   record of functions.
-- Match/Policy: src/arena/match/policy.py. `run_local_match` has a number of rounds; a match of
--   Nim (Games/Nim/Definition) needs at most one for each object, and one more.
-- Match/Transcript: src/arena/match/transcript.py, with Dump, Load, Validate and Views for the functions
--   of these names, and Payload for the payload models. A payload is a record, not a JSON mapping.
-- Adapters/InProcess: the policies of src/arena/adapters/in_process.py, each a function from a request
--   to a response, which may raise. A policy that keeps state between its turns is not modelled.
-- Runtime/Session: src/arena/runtime/session.py, the lifecycle of a session around a local match.
--   `run_session` has a number of steps, since nothing bounds the length of a
--   game; one of Nim needs at most one for each object, and one more.
--   Calls has every public method as a call; complete_turn does not look at the lifecycle.
-- Games/Nim, Games/Pig, Games/Rps: the rules engines of src/arena/games, with the checks of the
--   constructors of their states.
-- Games/Connect4: src/arena/games/connect4, with Winner for the searches along the lines. The loop of
--   _count_direction has as many steps as the board has rows and columns, and Winner/Lines shows that
--   more make no difference.
-- Games/LiarsDice: src/arena/games/liarsdice, with State for state.py and actions.py, Rules for
--   rules.py, Serializer for the payloads of states and rolls, and Views for what a seat and the
--   public see.
-- Server/RateLimits: src/arena/server/rate_limits.py. An operation changes the limiter under the lock,
--   so it is one step; it returns the limiter with the scope of the cap that was exceeded. The moment is
--   an argument: the source reads the clock before it takes the lock, so the moments of successive steps
--   may go back, and a result that needs them in order says so. Times are milliseconds.
-- Scenarios: concrete runs, on which the theorems are applied.
--
-- Seats, counts and times are natural numbers: negative numbers, and the tests of an argument's type,
-- are left out, but an action of another game's class is there (`foreign`). Serializers are
-- parameters, but for that of Liar's Dice. Not modelled: Tic-Tac-Toe, the
-- payloads of src/arena/runtime, the WebSocket adapter, the server's sockets, HTTP routes and stores,
-- the clients, the user interfaces and the language-model agents, which are input and output for the
-- most part; JSON as text, and client_address of the rate limits.
pub mod Prelude
pub mod Core
pub mod Match
pub mod Adapters
pub mod Runtime
pub mod Games
pub mod Server
pub mod Scenarios
