-- ===== src/Issues/Pipeline/Sound.antt =====
-- src/grouping/pipeline.rs: a run of the pipeline in which no call of the repositories fails.
use soika.Base.{
  &&_true, ◌==◌, ◌≡◌, refl, ◌∙◌, arith, Bool, true, false, Option, none, some, List, [], ◌∷◌, ◌++◌,
  if◌then◌else◌, Bool-cases, inl, inr,
}
use soika.Base.Text.{Str, str_eq, str_eq_iff}
use soika.Base.Result.{ok}
use soika.Issues.Types.{Uuid, Issue, unresolved, IssueUpsert, UpsertOutcome, Event}
use soika.Issues.Store.{
  update, has_id, has_key, clear_mute, find_by_id, find_by_fingerprint, upsert_once, Store,
  insert_event,
}
use soika.Issues.Tables.{find-update}
use soika.Issues.Tables
use soika.Issues.Upsert.{IsTable, upsert_once-IsTable}
use soika.Issues.History.{after_event, status_of, upsert_once-outcome}
use soika.Issues.Pipeline.{
  Generated, IngestOutcome, sound, notify_kind, regression, unmute, resurface_if_rate_exceeded,
  finish, ingest,
}
use soika.Issues.Pipeline.Notices.{
  trips, notice, notify_kind-notice, outcome-trips, resurface_lem, unmute-row,
}

keyed_by :
    (project_id : Uuid) (fingerprint : Str) (rows : List Issue) (i : Issue)
    → find_by_fingerprint project_id fingerprint rows ≡ some i
    → (i.project_id ≡ project_id) × (i.fingerprint ≡ fingerprint)
unfolding find_by_fingerprint
keyed_by project_id fingerprint rows i found =
    let (p, f) =
      &&_true (i.project_id == project_id) (str_eq i.fingerprint fingerprint)
        (Tables.find-holds (has_key project_id fingerprint) rows i found) in
    (ground (arith, p), (str_eq_iff i.fingerprint fingerprint).0 f)

module _ {Json : Type 0} where
  -- What a run of the pipeline must have done, given the issue found before and whether the event
  -- ends that issue's rate mute.
  pub record Ingested (u : IssueUpsert) (event_id : Str) (payload : Json) (s : Store Json)
      (before : Option Issue) (ends : Bool) (r : Store Json × IngestOutcome Json) : Type 0 where
    pub named : r.1.event.event_id ≡ event_id
    pub placed : r.1.event.project_id ≡ u.project_id
    pub carried : r.1.event.payload ≡ payload
    pub dated : r.1.event.received_at ≡ u.seen_at
    pub grouped : r.1.fingerprint ≡ u.fingerprint
    pub keyed : (r.1.issue.project_id ≡ u.project_id) × (r.1.issue.fingerprint ≡ u.fingerprint)
    pub stored_issue : find_by_fingerprint u.project_id u.fingerprint r.0.issues ≡ some r.1.issue
    pub stored_event : r.0.events ≡ s.events ++ (r.1.event ∷ [])
    pub linked : r.1.event.issue_id ≡ r.1.issue.id
    pub notified : r.1.notify ≡ notice (status_of before) ends
    pub status : r.1.issue.status ≡ (if ends then unresolved else after_event (status_of before))

  -- One run of the pipeline, named part by part.
  module _ (g : Generated) (u : IssueUpsert) (event_id : Str) (payload : Json)
      (s : Store Json) where
    abbrev before : Option Issue
    before = find_by_fingerprint u.project_id u.fingerprint s.issues

    abbrev pub up : List Issue × UpsertOutcome
    up = upsert_once g.issue_id g.short_id u s.issues

    abbrev pub stored : Event Json
    stored = record {
      id = g.event_row;
      event_id = event_id;
      issue_id = up.1.issue.id;
      project_id = u.project_id;
      payload = payload;
      received_at = u.seen_at;
    }

    abbrev pub counted : Store Json
    counted = record { issues = up.0; events = s.events ++ (stored ∷ []) }

    -- A run ends, with this outcome.
    abbrev Runs : Bool → Type 0
    Runs ends =
        (r : Store Json × IngestOutcome Json) × (ingest sound g u event_id payload s
          ≡ (r.0, ok r.1))
        × Ingested u event_id payload s before ends r

    resurfaced : resurface_if_rate_exceeded sound up.1.issue u.seen_at g.clock counted ≡ (
        if trips before u.seen_at s.events
        then unmute none up.1.issue.id g.clock counted
        else (counted, ok none))
    resurfaced =
        resurface_lem up.1.issue u.seen_at g.clock counted
        ∙ rw (outcome-trips g.issue_id g.short_id u s.issues s.events stored refl refl)

    quiet_run : IsTable s.issues → trips before u.seen_at s.events ≡ false → Runs false
    unfolding ingest insert_event
    quiet_run table quiet =
        let (found, new, regressed, status) =
          upsert_once-outcome g.issue_id g.short_id u s.issues table in
        let back : resurface_if_rate_exceeded sound up.1.issue u.seen_at g.clock counted
            ≡ (counted, ok none) =
          resurfaced ∙ rw quiet in
        (
          (
            counted,
            record {
              issue = up.1.issue;
              event = stored;
              fingerprint = u.fingerprint;
              notify = notify_kind up.1;
            },
          ),
          rw (back, ingest),
          unfold finish in
              record {
                named = refl;
                placed = refl;
                carried = refl;
                dated = refl;
                grouped = refl;
                keyed = keyed_by u.project_id u.fingerprint up.0 up.1.issue found;
                stored_issue = found;
                stored_event = refl;
                linked = refl;
                notified = notify_kind-notice up.1 before new regressed;
                status = status;
              },
        )

    loud_run :
        IsTable s.issues
        → find_by_id g.issue_id s.issues ≡ none
        → trips before u.seen_at s.events ≡ true
        → Runs true
    unfolding ingest insert_event
    loud_run table fresh loud =
        let o = up.1.issue in
        let (found, new, regressed, status) =
          upsert_once-outcome g.issue_id g.short_id u s.issues table in
        let live =
          λ (j : Issue). record (clear_mute j) { status = unresolved; updated_at = g.clock } in
        let key = has_key u.project_id u.fingerprint in
        let kept = upsert_once-IsTable g.issue_id g.short_id u s.issues fresh table in
        let row =
          Tables.find-by_id key up.0 o (unfold find_by_fingerprint in found) (kept.ids o.id) in
        let s'' : Store Json = record counted { issues = update (has_id o.id) live up.0 } in
        let self : has_id o.id o ≡ true = ground arith in
        let back : resurface_if_rate_exceeded sound o u.seen_at g.clock counted
            ≡ (s'', ok (some (live o))) =
          resurfaced ∙ rw loud (unmute-row o.id g.clock counted o row) in
        (
          (
            s'',
            record {
              issue = live o;
              event = stored;
              fingerprint = u.fingerprint;
              notify = regression;
            },
          ),
          rw (back, ingest),
          unfold finish find_by_fingerprint in
              record {
                named = refl;
                placed = refl;
                carried = refl;
                dated = refl;
                grouped = refl;
                keyed = keyed_by u.project_id u.fingerprint up.0 up.1.issue found;
                stored_issue =
                    find-update (has_id o.id) key live up.0 o (λ i. refl) found ∙ rw self;
                stored_event = refl;
                linked = refl;
                notified = refl;
                status = refl;
              },
        )

  pub ingest-sound :
      (g : Generated) (u : IssueUpsert) (event_id : Str) (payload : Json) (s : Store Json)
      → IsTable s.issues
      → find_by_id g.issue_id s.issues ≡ none
      → let before = find_by_fingerprint u.project_id u.fingerprint s.issues in
        (r : Store Json × IngestOutcome Json) × (ingest sound g u event_id payload s
          ≡ (r.0, ok r.1))
        × Ingested u event_id payload s before (trips before u.seen_at s.events) r
  ingest-sound g u event_id payload s table fresh =
      elim (Bool-cases (trips (before g u event_id payload s) u.seen_at s.events)) [
        | inr quiet ↦ rw quiet (quiet_run g u event_id payload s table quiet)
        | inl loud ↦ rw loud (loud_run g u event_id payload s table fresh loud)
      ]
