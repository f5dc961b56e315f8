-- ===== src/Std.antt =====
-- The containers of the C++ standard library, as the sources use them.
pub mod Map
pub mod Multimap
pub mod Sequence
