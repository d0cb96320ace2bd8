-- ===== src/Domain.antt =====
-- The rules of src/domain that stand alone.
pub mod Slug
pub mod MuteRule
