-- ===== src/RenPy.antt =====
-- src/modules/renpy: RPA archives.
pub mod Number
pub mod Pickle
pub mod Entries
pub mod Listing
