-- ===== src/Ingest.antt =====
-- The ingestion side of src/ingest: the rate limiter, the envelope parser, and the handlers with
-- what they read of a request.
pub mod RateLimit
pub mod Envelope
pub mod Request
pub mod Process
pub mod Handlers
