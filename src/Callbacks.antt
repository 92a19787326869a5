-- ===== src/Callbacks.antt =====
-- src/orwell/callbacks: what the server does with a message that has come, and the state of the
-- game that it sends on each tick.
pub mod Messages
pub mod Encode
pub mod Pings
pub mod Players
pub mod Reports
pub mod Decider
pub mod Kept
