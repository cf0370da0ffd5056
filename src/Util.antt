-- ===== src/Util.antt =====
-- The containers and number types of util/.
pub mod StdMap
pub mod KeyedVector
pub mod SymbolTable
pub mod BitBuffer
pub mod File
pub mod Mapping
