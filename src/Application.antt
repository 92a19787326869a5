-- ===== src/Application.antt =====
-- src/orwell/Application.cpp: the options of the program, the configuration, and the life of its
-- server.
pub mod State
pub mod Options
pub mod Config
pub mod GameConfig
pub mod Consistency
pub mod Launch
pub mod Run
pub mod Compare
pub mod Printing
pub mod Life
