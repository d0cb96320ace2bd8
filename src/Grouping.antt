-- ===== src/Grouping.antt =====
-- How events fall into issues: the texts that are left of an event, and their hash.
pub mod Normalize
pub mod Stacktrace
pub mod Fingerprint
