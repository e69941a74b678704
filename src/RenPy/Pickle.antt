-- ===== src/RenPy/Pickle.antt =====
-- src/modules/renpy/pickle.h, pickle.cpp: values of the pickle reader, and the reader.
pub mod Value
pub mod Opcode
pub mod Parser
pub mod Scalars
pub mod Containers
pub mod Memo
pub mod Run
pub mod Depth
pub mod Sound
