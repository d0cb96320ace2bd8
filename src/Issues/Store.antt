-- ===== src/Issues/Store.antt =====
-- The tables `issues` and `events`, and the statements that the SQLite adapters run on them. Each
-- operation is one transaction; what it generates (an id, a short id, the clock's reading) is an
-- argument.
use soika.Base.{
  ℕ, ◌+◌, min, max, Bool, true, false, not, ◌&&◌, Option, none, some, List, [], ◌∷◌, ◌++◌, map, leb,
  ◌==◌, if◌then◌else◌, filter, length,
}
use soika.Base.Text.{Str, str_eq}
use soika.Issues.Types.{
  Uuid, Timestamp, Issue, IssueStatus, unresolved, resolved, muted, status_eq, MuteSpec, forever,
  until, event_rate, IssueUpsert, UpsertOutcome, Event, NewEvent,
}

-- `SELECT … WHERE p`, of which the source fetches one row.
abbrev pub find : (Issue → Bool) → List Issue → Option Issue
find p [] = none
find p (i ∷ is) = if p i then some i else find p is

-- `UPDATE … SET f WHERE p`.
abbrev pub update : (Issue → Bool) → (Issue → Issue) → List Issue → List Issue
update p f [] = []
update p f (i ∷ is) = (if p i then f i else i) ∷ update p f is

-- `COUNT(*) … WHERE p`.
abbrev pub count : (Issue → Bool) → List Issue → ℕ
count p [] = 0
count p (i ∷ is) = (if p i then 1 else 0) + count p is

abbrev pub has_id : Uuid → Issue → Bool
has_id id i = i.id == id

abbrev pub has_key : Uuid → Str → Issue → Bool
has_key project_id fingerprint i = i.project_id == project_id && str_eq i.fingerprint fingerprint

-- The columns of a mute, cleared.
abbrev pub clear_mute : Issue → Issue
clear_mute i = record i {
  muted_at = none;
  muted_until = none;
  mute_threshold = none;
  mute_window_seconds = none;
}

unfoldable pub find_by_id : Uuid → List Issue → Option Issue
find_by_id id = find (has_id id)

unfoldable pub find_by_fingerprint : Uuid → Str → List Issue → Option Issue
find_by_fingerprint project_id fingerprint = find (has_key project_id fingerprint)

-- The update of `upsert_once` on an issue that is there.
unfoldable pub bump : IssueUpsert → Issue → Issue
bump u i = record i {
  status = if status_eq i.status resolved then unresolved else i.status;
  title = u.title;
  last_seen = u.seen_at;
  event_count = i.event_count + 1;
  updated_at = u.seen_at;
}

-- The row that it inserts.
unfoldable pub new_issue : Uuid → Str → IssueUpsert → Issue
new_issue id short_id u = record {
  id = id;
  short_id = short_id;
  project_id = u.project_id;
  fingerprint = u.fingerprint;
  title = u.title;
  culprit = u.culprit;
  level = u.level;
  environment = u.environment;
  release = u.release;
  status = unresolved;
  muted_at = none;
  muted_until = none;
  mute_threshold = none;
  mute_window_seconds = none;
  first_seen = u.seen_at;
  last_seen = u.seen_at;
  event_count = 1;
  created_at = u.seen_at;
  updated_at = u.seen_at;
}

unfoldable pub upsert_once : Uuid → Str → IssueUpsert → List Issue → List Issue × UpsertOutcome
unfolding find_by_fingerprint bump new_issue
upsert_once id short_id u rows = elim (find_by_fingerprint u.project_id u.fingerprint rows) [
  | some current ↦ (
    update (has_id current.id) (bump u) rows,
    record {
      issue = bump u current;
      is_new = false;
      is_regression = status_eq current.status resolved;
    },
  )
  | none ↦
      let issue = new_issue id short_id u in
      (rows ++ (issue ∷ []), record { issue = issue; is_new = true; is_regression = false })
]

-- `UPDATE … WHERE id = ? RETURNING`: the row after the update, or `none` for `not_found`.
abbrev pub update_returning : Uuid → (Issue → Issue) → List Issue → List Issue × Option Issue
update_returning id f rows =
    (update (has_id id) f rows, elim (find (has_id id) rows) [ none ↦ none | some i ↦ some (f i) ])

unfoldable pub set_status : Uuid → IssueStatus → Timestamp → List Issue → List Issue × Option Issue
set_status id status now =
    update_returning id (λ i. record (clear_mute i) { status = status; updated_at = now })

-- The columns that a mute sets.
unfoldable pub apply_mute : MuteSpec → Timestamp → Issue → Issue
apply_mute spec now i =
    let m = record (clear_mute i) { status = muted; muted_at = some now; updated_at = now } in
    elim spec [
      | forever ↦ m
      | until at ↦ record m { muted_until = some at }
      | event_rate threshold window ↦ record m {
        mute_threshold = some threshold;
        mute_window_seconds = some window;
      }
    ]

unfoldable pub mute : Uuid → MuteSpec → Timestamp → List Issue → List Issue × Option Issue
unfolding apply_mute
mute id spec now = update_returning id (apply_mute spec now)

abbrev pub is_expired : Timestamp → Issue → Bool
is_expired now i =
    status_eq i.status muted && elim i.muted_until [ none ↦ false | some at ↦ leb at now ]

unfoldable pub clear_expired_mutes : Timestamp → List Issue → List Issue × ℕ
clear_expired_mutes now rows = (
  update (is_expired now) (λ i. record (clear_mute i) { status = unresolved; updated_at = now })
      rows,
  count (is_expired now) rows,
)

-- The collision that a changed fingerprint meets.
abbrev pub collides : Issue → Str → Issue → Bool
collides target fingerprint i = has_key target.project_id fingerprint i && not (i.id == target.id)

abbrev pub merged : Issue → Issue → Str → Timestamp → Issue → Issue
merged target source fingerprint now i = record i {
  fingerprint = fingerprint;
  event_count = target.event_count + source.event_count;
  first_seen = min target.first_seen source.first_seen;
  last_seen = max target.last_seen source.last_seen;
  updated_at = now;
}

-- The two tables together, for what touches both.
pub record Store (Json : Type 0) : Type 0 where
  pub issues : List Issue
  pub events : List (Event Json)

module _ {Json : Type 0} where
  unfoldable pub insert_event :
      Uuid → NewEvent Json → List (Event Json) → List (Event Json) × Event Json
  insert_event id new rows =
      let event : Event Json = record {
        id = id;
        event_id = new.event_id;
        issue_id = new.issue_id;
        project_id = new.project_id;
        payload = new.payload;
        received_at = new.received_at;
      } in
      (rows ++ (event ∷ []), event)

  unfoldable pub count_in_window : Uuid → Timestamp → List (Event Json) → ℕ
  count_in_window issue_id since rows =
      length (filter (λ e. e.issue_id == issue_id && leb since e.received_at) rows)

  -- `UPDATE events SET issue_id = to WHERE issue_id = from`.
  unfoldable pub repoint : Uuid → Uuid → List (Event Json) → List (Event Json)
  repoint from to = map (λ e. if e.issue_id == from then record e { issue_id = to } else e)

  -- `DELETE FROM issues WHERE id = ?`, which takes the issue's events along.
  unfoldable pub delete_issue : Uuid → Store Json → Store Json
  delete_issue id s = record {
    issues = filter (λ i. not (i.id == id)) s.issues;
    events = filter (λ e. not (e.issue_id == id)) s.events;
  }

  unfoldable pub merge : Issue → Issue → Str → Timestamp → Store Json → Store Json × Option Issue
  unfolding repoint delete_issue
  merge target source fingerprint now s =
      let moved = record s { events = repoint source.id target.id s.events } in
      let s' = delete_issue source.id moved in
      let (rows, row) =
        update_returning target.id (merged target source fingerprint now) s'.issues in
      (record s' { issues = rows }, row)

  unfoldable pub rename : Issue → Str → Timestamp → Store Json → Store Json × Option Issue
  rename target fingerprint now s =
      let (rows, row) =
        update_returning target.id (λ i. record i { fingerprint = fingerprint; updated_at = now })
          s.issues in
      (record s { issues = rows }, row)

  -- `none` is `not_found`.
  unfoldable pub override_fingerprint_once :
      Uuid → Str → Timestamp → Store Json → Store Json × Option Issue
  unfolding find_by_id merge rename
  override_fingerprint_once issue_id fingerprint now s = elim (find_by_id issue_id s.issues) [
    | none ↦ (s, none)
    | some target ↦
        if str_eq target.fingerprint fingerprint
        then (s, some target)
        else elim (find (collides target fingerprint) s.issues) [
          | some source ↦ merge target source fingerprint now s
          | none ↦ rename target fingerprint now s
        ]
  ]
