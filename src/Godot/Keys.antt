-- ===== src/Godot/Keys.antt =====
-- src/core/godot/key_recovery.cpp: the search for keys in an executable.
pub mod State
pub mod Image
pub mod Pattern
pub mod Consume
pub mod Run
pub mod Bounded
