-- ===== src/Issues/Tests.antt =====
-- Short histories, and the theorems at them.
use soika.Base.{ℕ, ◌≡◌, refl, ◌⊎◌, arith, true, none, List, [], ◌∷◌}
use soika.Base.Int.{pos}
use soika.Base.Text.{codes, str_eq}
use soika.Base.Time.{from_secs}
use soika.Base.Result.{ok, err}
use soika.Errors.{Error}
use soika.Issues.Types.{Issue, unresolved, until, event_rate, IssueUpsert}
use soika.Issues.Store.{
  find_by_id, find_by_fingerprint, upsert_once, mute, apply_mute, Store, override_fingerprint_once,
}
use soika.Issues.Tables.{sum_by}
use soika.Issues.Upsert.{IsTable, upsert_once-IsTable}
use soika.Issues.History.{Arrival, run, arrivals_of, event_count-run}
use soika.Issues.Merge.{override_fingerprint_once-counts}
use soika.Issues.Mute.{
  AllRows, IsConsistent, Reach, start, next, silence, event, Reach-IsConsistent,
}
use soika.Issues.Pipeline.{ingest, sound, Generated, IngestOutcome}
use soika.Issues.Pipeline.Notices.{trips}
use soika.Issues.Pipeline.Run.{Stopped, ingest-Ingested}
use soika.Issues.Pipeline.Sound.{Ingested}

abbrev boom : IssueUpsert
boom = record {
  project_id = 1;
  fingerprint = codes "f1";
  title = codes "Boom";
  culprit = none;
  level = none;
  environment = none;
  release = none;
  seen_at = from_secs 100;
}

abbrev crash : IssueUpsert
crash = record boom { fingerprint = codes "f2"; seen_at = from_secs 200 }

abbrev one : List Issue
one = (upsert_once 7 (codes "aaaaaa") boom []).0

abbrev two : List Issue
two = (upsert_once 8 (codes "bbbbbb") crash one).0

one-IsTable : IsTable one
one-IsTable =
    upsert_once-IsTable 7 (codes "aaaaaa") boom [] (unfold find_by_id in refl)
      (record { ids = λ j. omega arith; keys = λ p f. omega arith })

two_fresh : find_by_id 8 one ≡ none
unfolding find_by_id upsert_once find_by_fingerprint
two_fresh = refl

two-IsTable : IsTable two
two-IsTable = upsert_once-IsTable 8 (codes "bbbbbb") crash one two_fresh one-IsTable

abbrev arrivals : List Arrival
arrivals =
    record { id = 7; short_id = codes "aaaaaa"; upsert = boom }
    ∷ record { id = 8; short_id = codes "bbbbbb"; upsert = crash }
    ∷ record { id = 9; short_id = codes "cccccc"; upsert = boom }
    ∷ []

abbrev boom_issue : Issue
boom_issue = record {
  id = 7;
  short_id = codes "aaaaaa";
  project_id = 1;
  fingerprint = codes "f1";
  title = codes "Boom";
  culprit = none;
  level = none;
  environment = none;
  release = none;
  status = unresolved;
  muted_at = none;
  muted_until = none;
  mute_threshold = none;
  mute_window_seconds = none;
  first_seen = from_secs 100;
  last_seen = from_secs 100;
  event_count = 2;
  created_at = from_secs 100;
  updated_at = from_secs 100;
}

event_count-run_example : boom_issue.event_count ≡ arrivals_of 1 (codes "f1") arrivals
unfolding run upsert_once find_by_fingerprint find_by_id str_eq
event_count-run_example =
    event_count-run arrivals 1 (codes "f1") boom_issue (refl, (refl, (refl, tt))) refl

abbrev merging : Store ℕ
merging = record { issues = two; events = [] }

override_fingerprint_once-counts_example :
    sum_by (λ i. i.event_count) (override_fingerprint_once 7 (codes "f2") 5 merging).0.issues
    ≡ sum_by (λ i. i.event_count) two
override_fingerprint_once-counts_example =
    override_fingerprint_once-counts 7 (codes "f2") 5 merging two-IsTable

abbrev hushed : List Issue
hushed = (mute 7 (until (from_secs 300)) (from_secs 150) one).0

hushed-Reach : Reach hushed
hushed-Reach =
    next (next start (event 7 (codes "aaaaaa") boom [] (unfold find_by_id in refl)))
      (silence 7 (until (from_secs 300)) (from_secs 150) one)

Reach-IsConsistent_example : IsTable hushed × AllRows IsConsistent hushed
Reach-IsConsistent_example = Reach-IsConsistent hushed-Reach

abbrev made : Generated
made = record { issue_id = 9; short_id = codes "cccccc"; event_row = 70; clock = from_secs 400 }

-- An event on an issue that waits for one event in a minute ends its mute.
abbrev tripped : Store ℕ
tripped = record {
  issues = (mute 7 (event_rate (pos 1) (pos 60)) (from_secs 50) one).0;
  events = [];
}

tripped-IsTable : IsTable tripped.issues
tripped-IsTable =
    (Reach-IsConsistent (
      next (next start (event 7 (codes "aaaaaa") boom [] (unfold find_by_id in refl)))
        (silence 7 (event_rate (pos 1) (pos 60)) (from_secs 50) one))).0

tripped_fresh : find_by_id 9 tripped.issues ≡ none
unfolding find_by_id upsert_once find_by_fingerprint mute apply_mute
tripped_fresh = refl

tripped_trips :
    trips (find_by_fingerprint 1 (codes "f1") tripped.issues) (from_secs 100) tripped.events ≡ true
unfolding find_by_id upsert_once find_by_fingerprint mute apply_mute trips str_eq
tripped_trips = refl

ingest-Ingested_example :
    let before = find_by_fingerprint 1 (codes "f1") tripped.issues in
    (((r : Store ℕ × IngestOutcome ℕ) × (ingest sound made boom (codes "e1") 5 tripped
          ≡ (r.0, ok r.1))
        × Ingested boom
            (codes "e1")
            5
            tripped
            before
            (trips before (from_secs 100) tripped.events)
            r)
      ⊎ ((e : Error) × (s' : Store ℕ) × (ingest sound made boom (codes "e1") 5 tripped
            ≡ (s', err e))
          × Stopped sound boom (codes "e1") 5 tripped before e s'))
    × (sound ≡ sound
        → (r : Store ℕ × IngestOutcome ℕ) × (ingest sound made boom (codes "e1") 5 tripped
            ≡ (r.0, ok r.1)))
ingest-Ingested_example =
    ingest-Ingested sound made boom (codes "e1") 5 tripped tripped-IsTable tripped_fresh
