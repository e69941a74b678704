-- ===== src/Godot.antt =====
-- src/core/godot: containers of the Godot engine.
pub mod Types
pub mod Encrypted
pub mod Pck
pub mod Rscc
pub mod Ima
pub mod Remap
pub mod Tree
pub mod Keys
