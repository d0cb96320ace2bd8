-- ===== src/Lib.antt =====
-- Soika: a self-hosted error tracker that speaks the Sentry protocol. A client posts an envelope of
-- events; the rate limiter lets it in or not, the envelope is parsed, each event is grouped by its
-- fingerprint into an issue, stored, and perhaps announced. People log in, reach the projects of
-- their teams, and resolve, mute or regroup issues; a scheduler ends the mutes whose time has come.
--
-- The parts and the files:
-- - Base: numbers, lists, text, maps, time, results; nothing of the program.
-- - Errors: src/error.rs, the errors and `Error::is_busy`. The driver's errors are data, as `sqlx`
--   shows them.
-- - Ingest.RateLimit: src/ingest/ratelimit.rs, the fixed window of each project. `check_at` is
--   `roll` (a new window once the old one has passed) and then `spend`.
-- - Ingest.Envelope: src/ingest/envelope.rs, the parser with its cursor. `Json` is the interface to
--   `serde_json`; the loop of `parse` is `parse_items`, on fuel: one round for each byte and one
--   more, which is enough since every round moves the cursor.
-- - Ingest.Request, Ingest.Process, Ingest.Handlers: src/ingest/handlers.rs. Request has the key and
--   the body of a request, with the two decoders of `flate2` as given functions; Process has
--   `process_event`, which reads an event, ingests it through Issues.Pipeline and hands a
--   notification on; Handlers has `authorize_and_decode` and the endpoints `envelope` and `store`,
--   over the rate limiter, the parser and Process. Each call of the repositories may fail, and what
--   the calls before it have stored stays.
-- - Domain.Slug: the slug part of src/domain/project.rs. Domain.MuteRule: src/domain/mute_rule.rs
--   and src/ingest/tags.rs.
-- - Grouping: src/domain/stacktrace.rs (Stacktrace, over an interface to JSON values),
--   src/grouping/normalize.rs (Normalize: the loop over a message walks its characters and passes
--   over those that a round takes at once) and src/grouping/fingerprint.rs (Fingerprint).
-- - Auth.Lockout: src/auth/lockout.rs, the brute-force guard. `record_failure_at` is `prune`,
--   `tracked_key`, and `fail` on the entry of that key, with the lockout's length from
--   `lockout_duration`.
-- - Auth.Session: src/auth/session.rs over the table of src/adapters/sqlite/session.rs, with the
--   owners that the environment names (`AdminUsers` of src/config.rs). The signature of a cookie is
--   checked by a given function.
-- - Issues: src/domain/issue.rs and src/ports/issue.rs (Types), the issue and event tables of
--   src/adapters/sqlite/issue.rs and src/adapters/sqlite/event.rs (Store: the rows as lists, each
--   transaction one function), and src/grouping/pipeline.rs (Pipeline). `upsert_once` is the
--   transaction that counts an event, `override_fingerprint_once` the one that renames or merges
--   an issue; `ingest` is `ingest_normalized` with the event's fields already read.
--   Retention is `delete_older_than` with its batches: the loop is on fuel, one round for each row
--   and one more, which is enough where a batch has at least one row, as the configuration checks.
-- - Storage.Retry: src/adapters/retry.rs and `WritePolicy` of src/config.rs, the bounded retries of
--   a write, as a function of any operation on a state. The loop is on fuel: one round for each
--   retry and one more.
-- - Access: src/domain/membership.rs and src/domain/user.rs (Role, TeamRole, User), the project
--   gates of src/api/projects.rs (Projects, over an interface of repositories that can fail),
--   src/adapters/sqlite/team.rs (Members, the table and its guarded statements) and the handlers of
--   src/api/teams.rs (Teams), which call Members. Invites is src/adapters/sqlite/invite.rs, whose
--   `accept` changes its own table and that of Members in one transaction.
-- - Notifications: src/domain/notifications.rs (Template, Config), the rendering of an alert (Alert)
--   and its life (Lifecycle) in src/alertmanager.rs, with the table of
--   src/adapters/sqlite/notifications.rs. `render_template` is on fuel: one round for each character
--   and one more, which is enough since every round takes a placeholder away. A world of Lifecycle
--   holds the table, what the receiver has taken in, and the outcomes of the sends, the writes and the
--   reads of the table to come, so that each call may fail; `notify`, `reconcile` and `refresh` are in
--   Lifecycle.Steps. Dispatch is
--   src/notify.rs, which calls `notify`, the webhook and the mailer.
--
-- How the code is written here: an `Instant`, a `Duration` and a timestamp are nanoseconds from a
-- start, so that no time lies before it; a UUID is a number; a u32 or a u64 wraps or saturates where
-- the source does, an i64 count does not. Mutexes make each call atomic, so a call is a function
-- from state to state. A transaction commits as a whole. Random numbers, new ids and the clock are
-- arguments. Text is a list of code points, or of bytes where the source walks bytes.
--
-- Not modelled: the web server, login forms, OIDC, passkeys, the mailer, the enrichment of events
-- from request headers (src/ingest/enrich.rs, a given function in Ingest.Process), the stored
-- notification settings, the PostgreSQL adapters (which mirror the SQLite ones), the configuration's
-- parsing, and the frontend. Logging is left out throughout. The library calls of JSON values, URLs,
-- decoders and the texts of numbers, ids and times are interfaces.
pub mod Base
pub mod Errors
pub mod Domain
pub mod Ingest
pub mod Auth
pub mod Grouping
pub mod Issues
pub mod Storage
pub mod Access
pub mod Notifications
