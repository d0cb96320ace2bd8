-- ===== src/Issues/History.antt =====
-- src/adapters/sqlite/issue.rs: the issues after any sequence of events, and the outcome that each
-- event reports.
use soika.Base.{
  ℕ, ◌+◌, ◌≤◌, ◌≡◌, refl, ◌∙◌, arith, Bool, true, false, ◌&&◌, Option, none, some, List, [], ◌∷◌,
  if◌then◌else◌, ◌==◌, Option-cases, inl, inr,
}
use soika.Base.Text.{Str, str_eq}
use soika.Issues.Types.{
  Uuid, Issue, IssueStatus, unresolved, resolved, muted, status_eq, IssueUpsert,
}
use soika.Issues.Store.{
  find, count, has_id, has_key, find_by_id, find_by_fingerprint, bump, new_issue, upsert_once,
}
use soika.Issues.Tables.{find-append, find-update}
use soika.Issues.Upsert.{IsTable, total, has_key_self, upsert_once-IsTable, upsert_once-total}

-- The life cycle: an event reopens what was resolved and leaves a muted issue muted.
abbrev pub after_event : Option IssueStatus → IssueStatus
after_event none = unresolved
after_event (some unresolved) = unresolved
after_event (some resolved) = unresolved
after_event (some muted) = muted

abbrev pub status_of : Option Issue → Option IssueStatus
status_of none = none
status_of (some i) = some i.status

abbrev pub is_none {ℓ} : {A : Type ℓ} → Option A → Bool
is_none none = true
is_none (some _) = false

abbrev pub is_resolved : Option IssueStatus → Bool
is_resolved (some resolved) = true
is_resolved _ = false

bump-status :
    (u : IssueUpsert) (c : Issue)
    → (status_eq c.status resolved ≡ is_resolved (some c.status))
      × ((bump u c).status ≡ after_event (some c.status))
unfolding bump
bump-status u c = go c.status
  where
    go :
        (s : IssueStatus)
        → (status_eq s resolved ≡ is_resolved (some s))
          × ((if status_eq s resolved then unresolved else s) ≡ after_event (some s))
    go unresolved = (refl, refl)
    go resolved = (refl, refl)
    go muted = (refl, refl)

-- Where ids and fingerprints are unique, what an event's outcome reports is what is stored: its issue is the one found under its
-- fingerprint afterwards, it is new just when none was found before, it is a regression just when
-- the one found was resolved, and its status follows the life cycle.
pub upsert_once-outcome :
    (id : Uuid) (short_id : Str) (u : IssueUpsert) (rows : List Issue)
    → IsTable rows
    → let (rows', outcome) = upsert_once id short_id u rows in
      let before = find_by_fingerprint u.project_id u.fingerprint rows in
      (find_by_fingerprint u.project_id u.fingerprint rows' ≡ some outcome.issue)
      × (outcome.is_new ≡ is_none before)
      × (outcome.is_regression ≡ is_resolved (status_of before))
      × (outcome.issue.status ≡ after_event (status_of before))
unfolding upsert_once find_by_fingerprint
upsert_once-outcome id short_id u rows t =
    elim (Option-cases (find (has_key u.project_id u.fingerprint) rows)) [
      | inr (c, e) ↦
          let found =
            find-update (has_id c.id) (has_key u.project_id u.fingerprint) (bump u) rows c
              (λ i. refl) e in
          let self : has_id c.id c ≡ true = ground arith in
          let status = bump-status u c in
          rw (e, upsert_once) (found ∙ rw self, refl, status.0, status.1)
      | inl e ↦
          let issue = new_issue id short_id u in
          rw (e, upsert_once)
            (
              find-append (has_key u.project_id u.fingerprint) rows (issue ∷ [])
                  ∙ rw (e, has_key_self issue),
              refl,
              refl,
              refl,
            )
    ]

-- One event of a history, with the id and the short id that it may need.
pub record Arrival : Type 0 where
  pub id : Uuid
  pub short_id : Str
  pub upsert : IssueUpsert

unfoldable pub run : List Arrival → List Issue → List Issue
run [] rows = rows
run (a ∷ as_) rows = run as_ (upsert_once a.id a.short_id a.upsert rows).0

-- How many events of a history have a fingerprint.
unfoldable pub arrivals_of : Uuid → Str → List Arrival → ℕ
arrivals_of p f [] = 0
arrivals_of p f (a ∷ as_) =
    (if a.upsert.project_id == p && str_eq a.upsert.fingerprint f then 1 else 0)
    + arrivals_of p f as_

-- Each id that the history generates is new when it is generated.
abbrev pub HasFreshIds : List Arrival → List Issue → Type 0
HasFreshIds [] rows = Unit {0}
HasFreshIds (a ∷ as_) rows =
    (find_by_id a.id rows ≡ none) × HasFreshIds as_ (upsert_once a.id a.short_id a.upsert rows).0

run-total :
    (as_ : List Arrival) (rows : List Issue) (p : Uuid) (f : Str)
    → IsTable rows
    → HasFreshIds as_ rows
    → IsTable (run as_ rows) × (total p f (run as_ rows) ≡ total p f rows + arrivals_of p f as_)
unfolding run arrivals_of
run-total [] rows p f t h = (t, omega arith)
run-total (a ∷ as_) rows p f t h =
    let next = upsert_once-IsTable a.id a.short_id a.upsert rows h.0 t in
    let rest = run-total as_ (upsert_once a.id a.short_id a.upsert rows).0 p f next h.1 in
    (rest.0, omega (arith, rest.1, upsert_once-total a.id a.short_id a.upsert rows p f t))

total-none :
    (rows : List Issue) (p : Uuid) (f : Str) → count (has_key p f) rows ≡ 0 → total p f rows ≡ 0
total-none [] p f u = refl
total-none (i ∷ rows) p f u = ground (arith, total-none rows p f)

total-found :
    (rows : List Issue) (p : Uuid) (f : Str) (c : Issue)
    → count (has_key p f) rows ≤ 1
    → find (has_key p f) rows ≡ some c
    → total p f rows ≡ c.event_count
total-found [] p f c u e = cc
total-found (i ∷ rows) p f c u e = ground (arith, total-found rows p f c, total-none rows p f)

-- After any history of events from empty tables, each with an id that no issue has yet, the issue of
-- a fingerprint has counted exactly the events that came with it.
pub event_count-run :
    (as_ : List Arrival) (p : Uuid) (f : Str) (c : Issue)
    → HasFreshIds as_ []
    → find_by_fingerprint p f (run as_ []) ≡ some c
    → c.event_count ≡ arrivals_of p f as_
unfolding find_by_fingerprint
event_count-run as_ p f c h e =
    let ran =
      run-total as_ [] p f (record { ids = λ j. omega arith; keys = λ q g. omega arith }) h in
    omega (arith, total-found (run as_ []) p f c (ran.0.keys p f) e, ran.1)
