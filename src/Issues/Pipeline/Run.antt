-- ===== src/Issues/Pipeline/Run.antt =====
-- src/grouping/pipeline.rs: a run of the pipeline, from the tables before it to the tables after it,
-- whichever call fails.
use soika.Base.{
  ap, ◌⊎◌, Option-cases, ◌≡◌, refl, ◌∙◌, Option, none, some, [], ◌∷◌, ◌++◌, Bool-cases, inl, inr,
}
use soika.Base.Text.{Str}
use soika.Base.Int.{pos, ltb_ℤ}
use soika.Base.Result.{ok, err}
use soika.Errors.{Error}
use soika.Issues.Types.{Timestamp, muted, status_eq, Issue, IssueUpsert, Event}
use soika.Issues.Store.{find_by_id, find_by_fingerprint, Store, insert_event, count_in_window}
use soika.Issues.Upsert.{IsTable}
use soika.Issues.History.{after_event, status_of, upsert_once-outcome}
use soika.Issues.Pipeline.{
  Faults, rate_of, rate_since, Generated, IngestOutcome, sound, unmute, resurface_if_rate_exceeded,
  finish, ingest,
}
use soika.Issues.Pipeline.Notices.{trips}
use soika.Issues.Pipeline.Sound.{Ingested, up, stored, counted, ingest-sound}

module _ {Json : Type 0} where
  -- The issue of an event has been upserted.
  abbrev pub Upserted : IssueUpsert → Option Issue → Store Json → Type 0
  Upserted u before s =
      (issue : Issue) × (find_by_fingerprint u.project_id u.fingerprint s.issues ≡ some issue)
      × (issue.status ≡ after_event (status_of before))

  -- What a run that a call stopped with an error has stored: nothing, the issue, or the issue and the
  -- event.
  abbrev pub Stopped :
      Faults → IssueUpsert → Str → Json → Store Json → Option Issue → Error → Store Json → Type 0
  Stopped faults u event_id payload s before e s' =
      ((faults.upsert ≡ some e) × (s' ≡ s))
      ⊎ (((faults.insert ≡ some e) × (s'.events ≡ s.events) × Upserted u before s')
          ⊎ (((faults.count ≡ some e) ⊎ (faults.change ≡ some e))
              × Upserted u before s'
              × ((event : Event Json) × (s'.events ≡ s.events ++ (event ∷ []))
                  × (event.event_id ≡ event_id)
                  × (event.payload ≡ payload))))

  resurface_stops :
      (count change : Option Error) (upsert insert : Option Error) (i : Issue)
      (now clock : Timestamp) (s : Store Json)
      → let faults : Faults = record {
        upsert = upsert;
        insert = insert;
        count = count;
        change = change;
      } in
        (resurface_if_rate_exceeded faults i now clock s
          ≡ resurface_if_rate_exceeded sound i now clock s)
        ⊎ ((e : Error) × (resurface_if_rate_exceeded faults i now clock s ≡ (s, err e))
            × ((count ≡ some e) ⊎ (change ≡ some e)))
  unfolding resurface_if_rate_exceeded unmute
  resurface_stops none none upsert insert i now clock s = inl refl
  resurface_stops (some x) change upsert insert i now clock s =
      elim (Bool-cases (status_eq i.status muted)) [
        | inr other ↦ inl (rw other refl)
        | inl held ↦ elim (Option-cases (rate_of i.mute_threshold i.mute_window_seconds)) [
          | inl e ↦ inl (rw (held, e) refl)
          | inr (rate, e) ↦ inr (x, rw (held, e) refl, inl refl)
        ]
      ]
  resurface_stops none (some x) upsert insert i now clock s =
      elim (Bool-cases (status_eq i.status muted)) [
        | inr other ↦ inl (rw other refl)
        | inl held ↦ elim (Option-cases (rate_of i.mute_threshold i.mute_window_seconds)) [
          | inl e ↦ inl (rw (held, e) refl)
          | inr ((n, w), e) ↦
              elim (Bool-cases
                (ltb_ℤ (pos (count_in_window i.id (rate_since now w i.muted_at) s.events)) n)) [
                  | inl below ↦ inl (rw (held, e, below) refl)
                  | inr reached ↦ inr (x, rw (held, e, reached) refl, inr refl)
                ]
        ]
      ]

  -- Where ids and fingerprints are unique and the id generated for a new issue is new, a run of the
  -- pipeline on an event either ingests it, or a call of the repositories stops it with its error. If
  -- no call fails, it is ingested. An event that is ingested is stored behind the others, with the id,
  -- the project, the payload and the time it came with, and linked to the issue of its fingerprint,
  -- which is stored. The issue is live again if the event ends its rate mute or found it resolved: a
  -- rate mute ends if, with this event, as many events as its threshold have come since the mute began
  -- and within its window. The notification says new issue, regression or nothing accordingly. A run
  -- that the upsert stopped has changed nothing. After one that the insertion stopped, the issue is
  -- stored, and no event. After one that the end of a rate mute stopped, both are.
  pub ingest-Ingested :
      (faults : Faults) (g : Generated) (u : IssueUpsert) (event_id : Str) (payload : Json)
      (s : Store Json)
      → IsTable s.issues
      → find_by_id g.issue_id s.issues ≡ none
      → let before = find_by_fingerprint u.project_id u.fingerprint s.issues in
        (((r : Store Json × IngestOutcome Json) × (ingest faults g u event_id payload s
              ≡ (r.0, ok r.1))
            × Ingested u event_id payload s before (trips before u.seen_at s.events) r)
          ⊎ ((e : Error) × (s' : Store Json) × (ingest faults g u event_id payload s ≡ (s', err e))
              × Stopped faults u event_id payload s before e s'))
        × (faults ≡ sound
            → (r : Store Json × IngestOutcome Json) × (ingest faults g u event_id payload s
                ≡ (r.0, ok r.1)))
  unfolding ingest insert_event finish
  ingest-Ingested faults g u event_id payload s table fresh = (
    either faults.upsert faults.insert faults.count faults.change,
    (λ e.
        let (r, runs, done) = ingest-sound g u event_id payload s table fresh in
        (r, ap (λ f. ingest f g u event_id payload s) e ∙ runs)),
  )
    where
      either :
          (upsert insert count change : Option Error)
          → let faults : Faults = record {
            upsert = upsert;
            insert = insert;
            count = count;
            change = change;
          } in
            let before = find_by_fingerprint u.project_id u.fingerprint s.issues in
            ((r : Store Json × IngestOutcome Json) × (ingest faults g u event_id payload s
                ≡ (r.0, ok r.1))
              × Ingested u event_id payload s before (trips before u.seen_at s.events) r)
            ⊎ ((e : Error) × (s' : Store Json) × (ingest faults g u event_id payload s
                  ≡ (s', err e))
                × Stopped faults u event_id payload s before e s')
      either (some e) insert count change = inr (e, s, refl, inl (refl, refl))
      either none (some e) count change =
          let (found, new, regressed, status) =
            upsert_once-outcome g.issue_id g.short_id u s.issues table in
          inr (
            e,
            record s { issues = (up g u event_id payload s).0 },
            refl,
            inr (inl (refl, refl, ((up g u event_id payload s).1.issue, found, status))),
          )
      either none none count change =
          let (found, new, regressed, status) =
            upsert_once-outcome g.issue_id g.short_id u s.issues table in
          let event = stored g u event_id payload s in
          let o = (up g u event_id payload s).1 in
          elim (resurface_stops count change none none o.issue u.seen_at g.clock
            (counted g u event_id payload s)) [
              | inl same ↦
                  let (r, runs, done) = ingest-sound g u event_id payload s table fresh in
                  inl (r, ap (finish u o event) same ∙ runs, done)
              | inr (e, stops, cause) ↦ inr (
                e,
                counted g u event_id payload s,
                ap (finish u o event) stops,
                inr (inr (cause, (o.issue, found, status), (event, refl, refl, refl))),
              )
            ]
