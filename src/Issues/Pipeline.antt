-- ===== src/Issues/Pipeline.antt =====
-- src/grouping/pipeline.rs from the upsert on: store the issue and the event, decide which
-- notification is due, and end a rate mute that the event pushed over its threshold. The ids and
-- the short id that the adapters generate, and their reading of the clock, are arguments.
pub mod Notices
pub mod Sound
pub mod Run
use soika.Base.{
  ℕ, ◌+◌, ◌-◌, ◌*◌, max, Bool, true, false, not, Option, none, some, List, [], ◌∷◌, if◌then◌else◌,
}
use soika.Base.Int.{ℤ, pos, pos_part, ltb_ℤ}
use soika.Base.Text.{Str, codes}
use soika.Base.Result.{Result, ok, err}
use soika.Errors.{Error, not_found}
use soika.Base.Time.{nanos_per_sec}
use soika.Issues.Types.{
  Uuid, Timestamp, Issue, IssueStatus, unresolved, muted, status_eq, IssueUpsert, UpsertOutcome,
  Event, NewEvent,
}
use soika.Issues.Store.{Store, upsert_once, set_status, insert_event, count_in_window}

-- `nothing` is the source's `None`.
pub data NotifyKind : Type 0 where
  nothing new_issue regression : NotifyKind

unfoldable pub notify_kind : UpsertOutcome → NotifyKind
notify_kind u = if u.is_regression then regression else if u.is_new then new_issue else nothing

-- What one run generates: the ids of a new issue and of the event, and the adapter's clock.
pub record Generated : Type 0 where
  pub issue_id : Uuid
  pub short_id : Str
  pub event_row : Uuid
  pub clock : Timestamp

-- The errors that the calls of the repositories meet: the upsert, the insertion of the event, the
-- count and the change of the status.
pub record Faults : Type 0 where
  pub upsert : Option Error
  pub insert : Option Error
  pub count : Option Error
  pub change : Option Error

abbrev pub sound : Faults
sound = record { upsert = none; insert = none; count = none; change = none }

-- The start of the window in which a rate mute counts.
unfoldable pub rate_since : Timestamp → ℤ → Option Timestamp → Timestamp
rate_since now window_seconds muted_at =
    let window_start = now - pos_part window_seconds * nanos_per_sec in
    elim muted_at [ none ↦ window_start | some at ↦ max at window_start ]

-- The two columns of a rate mute, if both are set.
abbrev pub rate_of : Option ℤ → Option ℤ → Option (ℤ × ℤ)
rate_of (some threshold) (some window) = some (threshold, window)
rate_of _ _ = none

pub record IngestOutcome (Json : Type 0) : Type 0 where
  pub issue : Issue
  pub event : Event Json
  pub fingerprint : Str
  pub notify : NotifyKind

module _ {Json : Type 0} where
  unfoldable pub unmute :
      Option Error → Uuid → Timestamp → Store Json → Store Json × Result Error (Option Issue)
  unmute fault id clock s = elim fault [
    | some e ↦ (s, err e)
    | none ↦
        let (rows, row) = set_status id unresolved clock s.issues in
        elim row [
          | none ↦ (s, err (not_found (codes "issue")))
          | some i ↦ (record s { issues = rows }, ok (some i))
        ]
  ]

  -- The issue that is unmuted, if one is.
  unfoldable pub resurface_if_rate_exceeded :
      Faults → Issue → Timestamp → Timestamp → Store Json → Store Json × Result Error (Option Issue)
  unfolding rate_since unmute
  resurface_if_rate_exceeded faults issue now clock s =
      if not (status_eq issue.status muted)
      then (s, ok none)
      else elim (rate_of issue.mute_threshold issue.mute_window_seconds) [
        | none ↦ (s, ok none)
        | some (threshold, window) ↦ elim faults.count [
          | some e ↦ (s, err e)
          | none ↦
              if ltb_ℤ
                (pos (count_in_window issue.id (rate_since now window issue.muted_at) s.events))
                threshold
              then (s, ok none)
              else unmute faults.change issue.id clock s
        ]
      ]

  unfoldable pub finish :
      IssueUpsert
      → UpsertOutcome
      → Event Json
      → Store Json × Result Error (Option Issue)
      → Store Json × Result Error (IngestOutcome Json)
  unfolding notify_kind
  finish u upsert event (s, err e) = (s, err e)
  finish u upsert event (s, ok none) = (
    s,
    ok (record {
      issue = upsert.issue;
      event = event;
      fingerprint = u.fingerprint;
      notify = notify_kind upsert;
    }),
  )
  finish u upsert event (s, ok (some issue)) = (
    s,
    ok (record { issue = issue; event = event; fingerprint = u.fingerprint; notify = regression }),
  )

  -- A call that fails leaves what the calls before it have stored.
  unfoldable pub ingest :
      Faults
      → Generated
      → IssueUpsert
      → Str
      → Json
      → Store Json
      → Store Json × Result Error (IngestOutcome Json)
  unfolding finish
  ingest faults g u event_id payload s = elim faults.upsert [
    | some e ↦ (s, err e)
    | none ↦
        let (issues, outcome) = upsert_once g.issue_id g.short_id u s.issues in
        let new : NewEvent Json = record {
          event_id = event_id;
          issue_id = outcome.issue.id;
          project_id = u.project_id;
          payload = payload;
          received_at = u.seen_at;
        } in
        elim faults.insert [
          | some e ↦ (record s { issues = issues }, err e)
          | none ↦
              let (events, event) = insert_event g.event_row new s.events in
              finish u outcome event (
                resurface_if_rate_exceeded faults outcome.issue u.seen_at g.clock
                  (record { issues = issues; events = events }))
        ]
  ]
