-- ===== src/Game.antt =====
-- src/orwell/game and include/orwell/game: the game's objects, its operations and its rules.
pub mod Types
pub mod Team
pub mod Item
pub mod Contact
pub mod Roster
pub mod Rules
pub mod Detector
pub mod Clock
pub mod Sound
