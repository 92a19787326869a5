-- ===== src/Proxy.antt =====
-- src/orwell/proxy: the command language of the agent.
pub mod Stream
pub mod Reply
pub mod Describe
pub mod Listing
pub mod Getting
pub mod Agent
pub mod Step
pub mod Safe
pub mod Unregistered
