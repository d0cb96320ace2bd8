-- ===== src/Issues/Types.antt =====
-- src/domain/issue.rs, and the inputs and outcomes of src/ports/issue.rs. Ids are numbers in place
-- of UUIDs; a timestamp is the nanoseconds since an origin before all timestamps of the program.
use soika.Base.{ℕ, Bool, true, false, Option}
use soika.Base.Int.{ℤ}
use soika.Base.Text.{Str, codes}

abbrev pub Uuid : Type 0
Uuid = ℕ

abbrev pub Timestamp : Type 0
Timestamp = ℕ

pub data IssueStatus : Type 0 where
  unresolved resolved muted : IssueStatus

abbrev pub status_eq : IssueStatus → IssueStatus → Bool
status_eq unresolved unresolved = true
status_eq resolved resolved = true
status_eq muted muted = true
status_eq _ _ = false

abbrev pub as_str : IssueStatus → Str
as_str unresolved = codes "unresolved"
as_str resolved = codes "resolved"
as_str muted = codes "muted"

pub record Issue : Type 0 where
  pub id : Uuid
  pub short_id : Str
  pub project_id : Uuid
  pub fingerprint : Str
  pub title : Str
  pub culprit : Option Str
  pub level : Option Str
  pub environment : Option Str
  pub release : Option Str
  pub status : IssueStatus
  pub muted_at : Option Timestamp
  pub muted_until : Option Timestamp
  pub mute_threshold : Option ℤ
  pub mute_window_seconds : Option ℤ
  pub first_seen : Timestamp
  pub last_seen : Timestamp
  pub event_count : ℕ
  pub created_at : Timestamp
  pub updated_at : Timestamp

pub data MuteSpec : Type 0 where
  forever : MuteSpec
  until : Timestamp → MuteSpec
  event_rate : ℤ → ℤ → MuteSpec

pub record IssueUpsert : Type 0 where
  pub project_id : Uuid
  pub fingerprint : Str
  pub title : Str
  pub culprit : Option Str
  pub level : Option Str
  pub environment : Option Str
  pub release : Option Str
  pub seen_at : Timestamp

pub record UpsertOutcome : Type 0 where
  pub issue : Issue
  pub is_new : Bool
  pub is_regression : Bool

-- A row of `events`. The payload is stored as it came, and nothing here reads it.
pub record Event (Json : Type 0) : Type 0 where
  pub id : Uuid
  pub event_id : Str
  pub issue_id : Uuid
  pub project_id : Uuid
  pub payload : Json
  pub received_at : Timestamp

pub record NewEvent (Json : Type 0) : Type 0 where
  pub event_id : Str
  pub issue_id : Uuid
  pub project_id : Uuid
  pub payload : Json
  pub received_at : Timestamp
