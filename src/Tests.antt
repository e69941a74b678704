-- ===== src/Tests.antt =====
-- Runs of the modules on small archives.
mod Archive
mod Zanzarah
mod RpgMaker
mod RenPy
mod Godot
mod Keys
mod Remap
mod Tree
