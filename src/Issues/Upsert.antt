-- ===== src/Issues/Upsert.antt =====
-- src/adapters/sqlite/issue.rs, `upsert_once`: the keys of the table and the counts after an
-- event.
use soika.Base.{
  ℕ, ◌+◌, ◌≤◌, ◌≡◌, refl, sym, subst, arith, Bool, true, ◌&&◌, none, List, [], ◌∷◌, ◌++◌,
  if◌then◌else◌, ◌==◌, Option-cases, inl, inr,
}
use soika.Base.Text.{Str, str_eq, str_eq_iff, str_eq_refl}
use soika.Issues.Types.{Uuid, Issue, IssueUpsert}
use soika.Issues.Store.{
  find, count, has_id, has_key, find_by_id, find_by_fingerprint, bump, new_issue, upsert_once,
}
use soika.Issues.Tables.{
  sum_by, count-append, find-none-count, find-holds, find-append, sum_by-append, sum_by-update,
  count-update, find-update,
}
use soika.Issues.Tables

-- The primary key, and the unique index on project and fingerprint.
pub record IsTable (rows : List Issue) : Type 0 where
  pub ids : (id : Uuid) → count (has_id id) rows ≤ 1
  pub keys : (project : Uuid) (fingerprint : Str) → count (has_key project fingerprint) rows ≤ 1

-- The events that the issues of one fingerprint have counted.
abbrev pub counted_for : Uuid → Str → Issue → ℕ
counted_for project fingerprint i = if has_key project fingerprint i then i.event_count else 0

abbrev pub total : Uuid → Str → List Issue → ℕ
total project fingerprint = sum_by (counted_for project fingerprint)

bump_key :
    (u : IssueUpsert) (p : Uuid) (f : Str) (i : Issue) → has_key p f (bump u i) ≡ has_key p f i
unfolding bump
bump_key u p f i = refl

bump_id : (u : IssueUpsert) (id : Uuid) (i : Issue) → has_id id (bump u i) ≡ has_id id i
unfolding bump
bump_id u id i = refl

count-snoc :
    (q : Issue → Bool) (x : Issue) (rows : List Issue)
    → count q rows ≤ 1
    → (q x ≡ true → count q rows ≡ 0)
    → count q (rows ++ (x ∷ [])) ≤ 1
count-snoc q x rows h only = ground (arith, count-append q rows (x ∷ []), only)

pub has_key-same :
    (p : Uuid) (f : Str) (i : Issue)
    → has_key p f i ≡ true
    → (i.project_id ≡ p) × (i.fingerprint ≡ f)
has_key-same p f i h = ground (arith, str_eq_iff i.fingerprint f)

pub has_key_self : (i : Issue) → has_key i.project_id i.fingerprint i ≡ true
has_key_self i = ground (arith, str_eq_refl i.fingerprint)

-- An event keeps the primary key and the unique index, if the id generated for a new issue is new.
pub upsert_once-IsTable :
    (id : Uuid) (short_id : Str) (u : IssueUpsert) (rows : List Issue)
    → find_by_id id rows ≡ none
    → IsTable rows
    → IsTable (upsert_once id short_id u rows).0
unfolding upsert_once find_by_fingerprint find_by_id
upsert_once-IsTable id short_id u rows fresh t =
    elim (Option-cases (find (has_key u.project_id u.fingerprint) rows)) [
      | inr (c, e) ↦
          rw (e, upsert_once)
            (record {
              ids = λ j.
                  rw (count-update (has_id c.id) (has_id j) (bump u) rows (bump_id u j)) (t.ids j);
              keys = λ p f.
                  rw (count-update (has_id c.id) (has_key p f) (bump u) rows (bump_key u p f))
                    (t.keys p f);
            })
      | inl e ↦
          rw (e, upsert_once)
            (record {
              ids = λ j.
                  count-snoc (has_id j) new rows (t.ids j) λ h. rw (sym (new_id j h)) none_has_id;
              keys = λ p f. count-snoc (has_key p f) new rows (t.keys p f) (λ h. new_key p f h e);
            })
    ]
  where
    new : Issue
    new = new_issue id short_id u

    new_id : (j : Uuid) → has_id j new ≡ true → id ≡ j
    new_id j h = unfold new_issue in ground arith

    none_has_id : count (has_id id) rows ≡ 0
    none_has_id = find-none-count (has_id id) rows fresh

    new_key :
        (p : Uuid) (f : Str)
        → has_key p f new ≡ true
        → find (has_key u.project_id u.fingerprint) rows ≡ none
        → count (has_key p f) rows ≡ 0
    new_key p f h e =
        let same = has_key-same p f new h in
        subst (λ q. count (has_key q f) rows ≡ 0) same.0
          (subst (λ g. count (has_key u.project_id g) rows ≡ 0) same.1
            (find-none-count (has_key u.project_id u.fingerprint) rows e))

-- Where ids and fingerprints are unique, every event adds one to the count of its fingerprint, and nothing to any other's.
pub upsert_once-total :
    (id : Uuid) (short_id : Str) (u : IssueUpsert) (rows : List Issue) (p : Uuid) (f : Str)
    → IsTable rows
    → total p f (upsert_once id short_id u rows).0
      ≡ total p f rows + (if u.project_id == p && str_eq u.fingerprint f then 1 else 0)
unfolding upsert_once find_by_fingerprint
upsert_once-total id short_id u rows p f t =
    elim (Option-cases (find (has_key u.project_id u.fingerprint) rows)) [
      | inr (c, e) ↦
          let row = Tables.find-by_id (has_key u.project_id u.fingerprint) rows c e (t.ids c.id) in
          let same =
            has_key-same u.project_id u.fingerprint c
              (find-holds (has_key u.project_id u.fingerprint) rows c e) in
          let moved =
            sum_by-update (has_id c.id) (counted_for p f) (bump u) rows c (t.ids c.id) row in
          rw (e, upsert_once) (ground (arith, moved, same))
      | inl e ↦
          rw (e, upsert_once)
            (ground (arith, sum_by-append (counted_for p f) rows (new_issue id short_id u ∷ [])))
    ]
