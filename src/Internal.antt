-- ===== src/Internal.antt =====
-- The internal package.
pub mod Ring
