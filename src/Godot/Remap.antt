-- ===== src/Godot/Remap.antt =====
-- src/core/godot/import_remap.cpp: the `.import` and `.remap` fragments of a pack.
pub mod Chars
pub mod Path
pub mod Text
pub mod Value
pub mod Found
pub mod Scan
pub mod Read
