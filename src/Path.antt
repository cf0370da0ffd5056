-- ===== src/Path.antt =====
-- path.h and path.cc: paths and their elements.
pub mod Element
pub mod Names
pub mod Indexed
pub mod Sequence
