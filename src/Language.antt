-- ===== src/Language.antt =====
-- The types and the values of the definition language, language/.
pub mod Types
pub mod Variable
pub mod Syntax
pub mod Files
