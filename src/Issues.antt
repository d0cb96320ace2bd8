-- ===== src/Issues.antt =====
-- Issues and their events: the domain type of src/domain/issue.rs, the tables of the SQLite
-- adapters src/adapters/sqlite/{issue,event}.rs, and the tail of the ingestion pipeline,
-- src/grouping/pipeline.rs.
pub mod Types
pub mod Store
pub mod Tables
pub mod Upsert
pub mod History
pub mod Merge
pub mod Mute
pub mod Pipeline
pub mod Retention
mod Tests
