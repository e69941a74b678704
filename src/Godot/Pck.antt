-- ===== src/Godot/Pck.antt =====
-- src/core/godot/pck.cpp: the reader of Godot packs.
pub mod Reader
pub mod Locate
pub mod Path
pub mod Entry
pub mod Layout
pub mod Index
