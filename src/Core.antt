-- ===== src/Core.antt =====
-- The simulation core (src/arena/core): errors, chance, the rules-engine interface, joint turns.
pub mod Errors
pub mod Chance
pub mod Engine
pub mod Events
pub mod Nodes
pub mod Simultaneous
pub mod PublicView
pub mod Registry
pub mod Contract
