-- ===== src/Issues/Mute.antt =====
-- src/adapters/sqlite/issue.rs: the mute columns of an issue, and when a mute ends.
use soika.Base.{
  ℕ, ◌≡◌, ◌≢◌, refl, ap, arith, Bool, true, false, Option, none, some, List, [], ◌∷◌, ◌++◌, ◌==◌,
  Bool-cases, inl, inr, ◌⊎◌, Option-cases,
}
use mathlib.Core.Path.{ap₂}
use soika.Base.Int.{ℤ}
use soika.Base.Text.{Str}
use soika.Issues.Types.{
  Uuid, Timestamp, Issue, IssueStatus, unresolved, muted, MuteSpec, forever, until, event_rate,
  IssueUpsert,
}
use soika.Issues.Store.{
  find, update, count, has_id, has_key, find_by_id, clear_mute, bump, new_issue, upsert_once,
  find_by_fingerprint, set_status, apply_mute, mute, is_expired, clear_expired_mutes,
}
use soika.Issues.Tables.{count-update}
use soika.Issues.Upsert.{IsTable, upsert_once-IsTable}

-- An issue that is not muted carries no mute column. A muted one has its baseline, and at most one
-- of the two ways to end: a time, or a threshold with its window.
pub data HasMute : Option Timestamp → Option Timestamp → Option ℤ → Option ℤ → Type 0 where
  endless : (at : Timestamp) → HasMute (some at) none none none
  timed : (at end : Timestamp) → HasMute (some at) (some end) none none
  rated : (at : Timestamp) (n w : ℤ) → HasMute (some at) none (some n) (some w)

abbrev pub IsConsistent : Issue → Type 0
IsConsistent i =
    ((i.status ≢ muted)
      × (i.muted_at ≡ none)
      × (i.muted_until ≡ none)
      × (i.mute_threshold ≡ none)
      × (i.mute_window_seconds ≡ none))
    ⊎ ((i.status ≡ muted) × HasMute i.muted_at i.muted_until i.mute_threshold i.mute_window_seconds)

-- What holds of every row.
abbrev pub AllRows : (Issue → Type 0) → List Issue → Type 0
AllRows P [] = Unit {0}
AllRows P (i ∷ rows) = P i × AllRows P rows

update-AllRows :
    (P : Issue → Type 0) (p : Issue → Bool) (f : Issue → Issue) (rows : List Issue)
    → ((i : Issue) → p i ≡ true → P i → P (f i))
    → AllRows P rows
    → AllRows P (update p f rows)
update-AllRows P p f [] h a = tt
update-AllRows P p f (i ∷ rows) h a = elim (Bool-cases (p i)) [
  | inl hit ↦ rw hit (h i hit a.0, update-AllRows P p f rows h a.1)
  | inr miss ↦ rw miss (a.0, update-AllRows P p f rows h a.1)
]

append-AllRows :
    (P : Issue → Type 0) (rows : List Issue) (i : Issue)
    → AllRows P rows
    → P i
    → AllRows P (rows ++ (i ∷ []))
append-AllRows P [] i a h = (h, tt)
append-AllRows P (j ∷ rows) i a h = (a.0, append-AllRows P rows i a.1 h)

apply_mute-IsConsistent :
    (spec : MuteSpec) (now : Timestamp) (i : Issue) → IsConsistent (apply_mute spec now i)
unfolding apply_mute
apply_mute-IsConsistent forever now i = inr (refl, endless now)
apply_mute-IsConsistent (until at) now i = inr (refl, timed now at)
apply_mute-IsConsistent (event_rate n w) now i = inr (refl, rated now n w)

bump-IsConsistent : (u : IssueUpsert) (i : Issue) → IsConsistent i → IsConsistent (bump u i)
unfolding bump
bump-IsConsistent u i (inl h) = ground arith
bump-IsConsistent u i (inr h) = inr (ground (arith, h.0), h.1)

update_row-IsConsistent :
    (id : Uuid) (f : Issue → Issue) (rows : List Issue)
    → ((i : Issue) → IsConsistent (f i))
    → AllRows IsConsistent rows
    → AllRows IsConsistent (update (has_id id) f rows)
update_row-IsConsistent id f rows h a =
    update-AllRows IsConsistent (has_id id) f rows (λ i hit c. h i) a

-- One change of the table: an event, a resolution or a reopening, a mute, the scheduler's sweep.
pub data Step : List Issue → List Issue → Type 0 where
  event :
      (id : Uuid) (short_id : Str) (u : IssueUpsert) (rows : List Issue)
      → find_by_id id rows ≡ none
      → Step rows (upsert_once id short_id u rows).0
  mark :
      (id : Uuid) (s : IssueStatus) (now : Timestamp) (rows : List Issue)
      → s ≢ muted
      → Step rows (set_status id s now rows).0
  silence :
      (id : Uuid) (spec : MuteSpec) (now : Timestamp) (rows : List Issue)
      → Step rows (mute id spec now rows).0
  sweep : (now : Timestamp) (rows : List Issue) → Step rows (clear_expired_mutes now rows).0

pub data Reach : List Issue → Type 0 where
  start : Reach []
  next : {rows rows' : List Issue} → Reach rows → Step rows rows' → Reach rows'

upsert_once-AllRows :
    (id : Uuid) (short_id : Str) (u : IssueUpsert) (rows : List Issue)
    → AllRows IsConsistent rows
    → AllRows IsConsistent (upsert_once id short_id u rows).0
unfolding upsert_once find_by_fingerprint
upsert_once-AllRows id short_id u rows a =
    elim (Option-cases (find (has_key u.project_id u.fingerprint) rows)) [
      | inl e ↦
          rw (e, upsert_once)
            (append-AllRows IsConsistent rows (new_issue id short_id u) a
              (inl ((λ h. cc), refl, refl, refl, refl)))
      | inr (c, e) ↦
          rw (e, upsert_once)
            (update-AllRows IsConsistent (has_id c.id) (bump u) rows
              (λ i hit. bump-IsConsistent u i) a)
    ]

Step-AllRows :
    {rows rows' : List Issue}
    → Step rows rows'
    → AllRows IsConsistent rows
    → AllRows IsConsistent rows'
unfolding set_status mute clear_expired_mutes
Step-AllRows (event id short_id u rows fresh) a = upsert_once-AllRows id short_id u rows a
Step-AllRows (mark id s now rows live) a =
    update_row-IsConsistent id _ rows (λ i. inl (live, refl, refl, refl, refl)) a
Step-AllRows (silence id spec now rows) a =
    update_row-IsConsistent id _ rows (apply_mute-IsConsistent spec now) a
Step-AllRows (sweep now rows) a =
    update-AllRows IsConsistent (is_expired now) _ rows
      (λ i hit c. inl ((λ h. cc), refl, refl, refl, refl)) a

same_keys-IsTable :
    (q : Issue → Bool) (f : Issue → Issue) (rows : List Issue)
    → ((i : Issue) → (f i).id ≡ i.id)
    → ((p : Uuid) (g : Str) (i : Issue) → has_key p g (f i) ≡ has_key p g i)
    → IsTable rows
    → IsTable (update q f rows)
same_keys-IsTable q f rows ids keys t = record {
  ids = λ j. rw (count-update q (has_id j) f rows (λ i. ap (λ n. n == j) (ids i))) (t.ids j);
  keys = λ p g. rw (count-update q (has_key p g) f rows (keys p g)) (t.keys p g);
}

Step-IsTable : {rows rows' : List Issue} → Step rows rows' → IsTable rows → IsTable rows'
unfolding set_status mute clear_expired_mutes apply_mute
Step-IsTable (event id short_id u rows fresh) t = upsert_once-IsTable id short_id u rows fresh t
Step-IsTable (mark id s now rows live) t =
    same_keys-IsTable (has_id id) _ rows (λ i. refl) (λ p f i. refl) t
Step-IsTable (silence id forever now rows) t =
    same_keys-IsTable (has_id id) _ rows (λ i. refl) (λ p f i. refl) t
Step-IsTable (silence id (until at) now rows) t =
    same_keys-IsTable (has_id id) _ rows (λ i. refl) (λ p f i. refl) t
Step-IsTable (silence id (event_rate n w) now rows) t =
    same_keys-IsTable (has_id id) _ rows (λ i. refl) (λ p f i. refl) t
Step-IsTable (sweep now rows) t =
    same_keys-IsTable (is_expired now) _ rows (λ i. refl) (λ p f i. refl) t

-- In every table that events, resolutions, mutes and sweeps lead to from the empty one, ids and
-- fingerprints are unique, and an issue carries mute columns just when it is muted: its baseline,
-- and at most one of an end time and a threshold with its window.
pub Reach-IsConsistent : {rows : List Issue} → Reach rows → IsTable rows × AllRows IsConsistent rows
Reach-IsConsistent start = (record { ids = λ j. omega arith; keys = λ p f. omega arith }, tt)
Reach-IsConsistent (next r s) =
    let (t, a) = Reach-IsConsistent r in (Step-IsTable s t, Step-AllRows s a)

count-cleared :
    (p : Issue → Bool) (f : Issue → Issue) (rows : List Issue)
    → ((i : Issue) → p (f i) ≡ false)
    → count p (update p f rows) ≡ 0
count-cleared p f [] h = refl
count-cleared p f (i ∷ rows) h = ground (arith, count-cleared p f rows h, h i)

update-none :
    (p : Issue → Bool) (f : Issue → Issue) (rows : List Issue)
    → count p rows ≡ 0
    → update p f rows ≡ rows
update-none p f [] h = refl
update-none p f (i ∷ rows) h = ground (arith, update-none p f rows)

-- The sweep ends every mute whose time has come: right after it no mute is left to end, so that
-- a second sweep at the same time changes nothing and reports none.
pub clear_expired_mutes_complete :
    (now : Timestamp) (rows : List Issue)
    → clear_expired_mutes now (clear_expired_mutes now rows).0
      ≡ ((clear_expired_mutes now rows).0, 0)
unfolding clear_expired_mutes
clear_expired_mutes_complete now rows =
    let clear = λ (i : Issue). record (clear_mute i) { status = unresolved; updated_at = now } in
    let swept = update (is_expired now) clear rows in
    let left = count-cleared (is_expired now) clear rows (λ i. refl) in
    ap₂ (λ (a : List Issue) (n : ℕ). (a, n)) (update-none (is_expired now) clear swept left) left

-- No sweep ends a mute that waits for a rate of events or for nothing.
pub untimed_never_swept :
    (spec : MuteSpec) (now later : Timestamp) (i : Issue)
    → ((end : Timestamp) → spec ≢ until end)
    → is_expired later (apply_mute spec now i) ≡ false
unfolding apply_mute
untimed_never_swept forever now later i h = refl
untimed_never_swept (until at) now later i h = absurd (h at refl)
untimed_never_swept (event_rate n w) now later i h = refl
