-- ===== src/Model.antt =====
-- The database rows that several components share (hushline/model).
pub mod Enums
pub mod Json
pub mod ChatKey
pub mod User
pub mod Samples
