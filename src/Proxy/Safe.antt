-- ===== src/Proxy/Safe.antt =====
-- What holds of every command: the maps of the game stay as its invariant asks.
pub mod Yields
pub mod Kept
pub mod Members
pub mod Stepped
