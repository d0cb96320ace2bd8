-- ===== src/Storage.antt =====
-- The storage side that every database adapter shares.
pub mod Retry
