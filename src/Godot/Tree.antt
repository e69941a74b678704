-- ===== src/Godot/Tree.antt =====
-- src/modules/godot/virtual_tree.cpp: the listing of a pack that the plug-in presents.
pub mod Host
pub mod Escape
pub mod Names
pub mod Placer
pub mod Maps
pub mod Rows
pub mod Build
