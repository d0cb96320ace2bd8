-- ===== src/Issues/Merge.antt =====
-- src/adapters/sqlite/issue.rs, `override_fingerprint_once`: a rename, or a merge with the issue
-- that has the fingerprint.
use soika.Base.{
  ℕ, ◌+◌, ◌≤◌, ◌≡◌, ◌≢◌, refl, sym, ap, subst, ◌∙◌, arith, Bool, true, false, not, Option, none,
  some, List, [], ◌∷◌, ◌==◌, Option-cases, Bool-cases, inl, inr, filter, length, &&_true,
}
use soika.Base.Text.{Str, str_eq, str_eq_iff, str_eq_ne, ne_of_str_eq}
use soika.Issues.Types.{Uuid, Timestamp, Issue, Event}
use soika.Issues.Store.{
  find, update, count, has_id, has_key, Store, repoint, delete_issue, collides, merged, merge,
  rename, override_fingerprint_once,
}
use soika.Issues.Tables.{
  sum_by, sum_by-update, sum_by-update_same, find-none-count, count-sum_by, indicator, count-both,
  count-split, find-holds, count-update,
}
use soika.Issues.Tables
use soika.Issues.Upsert.{IsTable, has_key-same}

collides-ne :
    (target : Issue) (f : Str) (rows : List Issue) (c : Issue)
    → find (collides target f) rows ≡ some c
    → c.id ≢ target.id
collides-ne target f rows c e = ground (arith, find-holds (collides target f) rows c e)

module _ {ℓ} {Json : Type 0} (P : Store Json × Option Issue → Type ℓ) where
  -- The four ways of an override.
  override_cases :
      (id : Uuid) (f : Str) (now : Timestamp) (s : Store Json)
      → P (s, none)
      → ((t : Issue) → find (has_id id) s.issues ≡ some t → t.fingerprint ≡ f → P (s, some t))
      → ((t : Issue)
          → find (has_id t.id) s.issues ≡ some t
          → t.fingerprint ≢ f
          → find (collides t f) s.issues ≡ none
          → P (rename t f now s))
      → ((t c : Issue)
          → find (has_id t.id) s.issues ≡ some t
          → find (collides t f) s.issues ≡ some c
          → P (merge t c f now s))
      → P (override_fingerprint_once id f now s)
  unfolding override_fingerprint_once
  override_cases id f now s missing same free taken =
      elim (Option-cases (find (has_id id) s.issues)) [
        | inl e ↦ rw (e, override_fingerprint_once) missing
        | inr (t, e) ↦ elim (Bool-cases (str_eq t.fingerprint f)) [
          | inl old ↦
              rw (e, override_fingerprint_once)
                (rw old (same t e ((str_eq_iff t.fingerprint f).0 old)))
          | inr new ↦ elim (Option-cases (find (collides t f) s.issues)) [
            | inl none_there ↦
                rw (e, override_fingerprint_once)
                  (rw new (rw none_there (free t (own t e) (ne_of_str_eq _ _ new) none_there)))
            | inr (c, there) ↦
                rw (e, override_fingerprint_once) (rw new (rw there (taken t c (own t e) there)))
          ]
        ]
      ]
    where
      own : (t : Issue) → find (has_id id) s.issues ≡ some t → find (has_id t.id) s.issues ≡ some t
      own t e =
          let same : t.id ≡ id = ground (arith, find-holds (has_id id) s.issues t e) in
          ap (λ x. find (has_id x) s.issues) same ∙ e

-- The rows that a deletion leaves.
abbrev others : Uuid → List Issue → List Issue
others id = filter (λ i. not (has_id id i))

count-others-le :
    (q : Issue → Bool) (id : Uuid) (rows : List Issue) → count q (others id rows) ≤ count q rows
count-others-le q id [] = omega arith
count-others-le q id (i ∷ rows) = ground (arith, count-others-le q id rows)

sum_by-others_none :
    (g : Issue → ℕ) (id : Uuid) (rows : List Issue)
    → count (has_id id) rows ≡ 0
    → sum_by g (others id rows) ≡ sum_by g rows
sum_by-others_none g id [] h = refl
sum_by-others_none g id (i ∷ rows) h = ground (arith, sum_by-others_none g id rows)

sum_by-others :
    (g : Issue → ℕ) (id : Uuid) (rows : List Issue) (c : Issue)
    → count (has_id id) rows ≤ 1
    → find (has_id id) rows ≡ some c
    → sum_by g (others id rows) + g c ≡ sum_by g rows
sum_by-others g id [] c u e = cc
sum_by-others g id (i ∷ rows) c u e =
    ground (arith, sum_by-others g id rows c, sum_by-others_none g id rows)

find-others :
    (id j : Uuid) (rows : List Issue)
    → id ≢ j
    → find (has_id j) (others id rows) ≡ find (has_id j) rows
find-others id j [] h = refl
find-others id j (i ∷ rows) h = ground (arith, find-others id j rows h)

module _ {Json : Type 0} where
  -- Once an issue's events are moved away, deleting the issue takes none along.
  length-repoint_delete :
      (from to : Uuid) (es : List (Event Json))
      → from ≢ to
      → length (filter (λ e. not (e.issue_id == from)) (repoint from to es)) ≡ length es
  unfolding repoint
  length-repoint_delete from to [] h = refl
  length-repoint_delete from to (e ∷ es) h = ground (arith, length-repoint_delete from to es h)

  -- No event is lost: whether the issue is renamed, merged, left alone or not found, there are as
  -- many events afterwards as before.
  pub override_fingerprint_once-events :
      (id : Uuid) (f : Str) (now : Timestamp) (s : Store Json)
      → length (override_fingerprint_once id f now s).0.events ≡ length s.events
  unfolding rename merge delete_issue
  override_fingerprint_once-events id f now s =
      override_cases (λ r. length r.0.events ≡ length s.events) id f now s refl (λ t e same. refl)
        (λ t e new free. refl)
        λ t c e taken. length-repoint_delete c.id t.id s.events (collides-ne t f s.issues c taken)

  merge-counts :
      (t c : Issue) (f : Str) (now : Timestamp) (s : Store Json)
      → IsTable s.issues
      → find (has_id t.id) s.issues ≡ some t
      → find (collides t f) s.issues ≡ some c
      → sum_by (λ i. i.event_count) (merge t c f now s).0.issues
        ≡ sum_by (λ i. i.event_count) s.issues
  unfolding merge delete_issue
  merge-counts t c f now s table target taken =
      let apart = collides-ne t f s.issues c taken in
      let source = Tables.find-by_id (collides t f) s.issues c taken (table.ids c.id) in
      let left = others c.id s.issues in
      omega (
        arith,
        sum_by-others (λ i. i.event_count) c.id s.issues c (table.ids c.id) source,
        sum_by-update (has_id t.id) (λ i. i.event_count) (merged t c f now) left t
            (omega (arith, count-others-le (has_id t.id) c.id s.issues, table.ids t.id))
            (find-others c.id t.id s.issues apart ∙ target),
      )

  rename-counts :
      (t : Issue) (f : Str) (now : Timestamp) (s : Store Json)
      → sum_by (λ i. i.event_count) (rename t f now s).0.issues
        ≡ sum_by (λ i. i.event_count) s.issues
  unfolding rename
  rename-counts t f now s =
      sum_by-update_same (has_id t.id) (λ i. i.event_count) _ s.issues (λ i. refl)

  -- No counted event is lost: where ids and fingerprints are unique, the issues' counts add up to
  -- the same after a rename or a merge.
  pub override_fingerprint_once-counts :
      (id : Uuid) (f : Str) (now : Timestamp) (s : Store Json)
      → IsTable s.issues
      → sum_by (λ i. i.event_count) (override_fingerprint_once id f now s).0.issues
        ≡ sum_by (λ i. i.event_count) s.issues
  override_fingerprint_once-counts id f now s table =
      override_cases
        (λ r. sum_by (λ i. i.event_count) r.0.issues ≡ sum_by (λ i. i.event_count) s.issues) id f
        now s refl (λ t e same. refl) (λ t e new free. rename-counts t f now s)
        λ t c e taken. merge-counts t c f now s table e taken

-- Changing the fingerprint of the one row `t` keeps the index if no other row has the new key.
rekey-IsTable :
    (t : Issue) (f : Str) (h : Issue → Issue) (rows : List Issue)
    → ((i : Issue) → (h i).id ≡ i.id)
    → ((h t).project_id ≡ t.project_id) × ((h t).fingerprint ≡ f)
    → find (has_id t.id) rows ≡ some t
    → count (has_key t.project_id f) rows ≡ 0
    → IsTable rows
    → IsTable (update (has_id t.id) h rows)
rekey-IsTable t f h rows ids moved e free table = record {
  ids = λ j.
      rw (count-update (has_id t.id) (has_id j) h rows (λ i. ap (λ n. n == j) (ids i)))
        (table.ids j);
  keys = λ p g.
      let q = has_key p g in
      ground (
        arith,
        count-sum_by q (update (has_id t.id) h rows),
        count-sum_by q rows,
        sum_by-update (has_id t.id) (indicator q) h rows t (table.ids t.id) e,
        table.keys p g,
        taken p g,
        moved,
      );
}
  where
    taken : (p : Uuid) (g : Str) → has_key p g (h t) ≡ true → count (has_key p g) rows ≡ 0
    taken p g k =
        let same = has_key-same p g (h t) k in
        subst (λ q. count (has_key q g) rows ≡ 0) (sym moved.0 ∙ same.0)
          (subst (λ k. count (has_key t.project_id k) rows ≡ 0) (sym moved.1 ∙ same.1) free)

module _ {Json : Type 0} where
  rename-IsTable :
      (t : Issue) (f : Str) (now : Timestamp) (s : Store Json)
      → IsTable s.issues
      → find (has_id t.id) s.issues ≡ some t
      → t.fingerprint ≢ f
      → find (collides t f) s.issues ≡ none
      → IsTable (rename t f now s).0.issues
  unfolding rename
  rename-IsTable t f now s table e new free =
      let q = has_key t.project_id f in
      let not_t : q t ≡ false = ground (arith, str_eq_ne t.fingerprint f new) in
      rekey-IsTable t f _ s.issues (λ i. refl) (refl, refl) e
        (omega (
          arith,
          count-split (has_id t.id) q s.issues,
          count-both (has_id t.id) q s.issues t (table.ids t.id) e not_t,
          find-none-count (collides t f) s.issues free,
        ))
        table

  merge-IsTable :
      (t c : Issue) (f : Str) (now : Timestamp) (s : Store Json)
      → IsTable s.issues
      → find (has_id t.id) s.issues ≡ some t
      → find (collides t f) s.issues ≡ some c
      → IsTable (merge t c f now s).0.issues
  unfolding merge delete_issue
  merge-IsTable t c f now s table e taken =
      let q = has_key t.project_id f in
      let apart = collides-ne t f s.issues c taken in
      let source = Tables.find-by_id (collides t f) s.issues c taken (table.ids c.id) in
      let has =
        (&&_true (q c) (not (has_id t.id c)) (find-holds (collides t f) s.issues c taken)).0 in
      let left = others c.id s.issues in
      rekey-IsTable t f (merged t c f now) left (λ i. refl) (refl, refl)
        (find-others c.id t.id s.issues apart ∙ e)
        (ground (
          arith,
          count-sum_by q left,
          count-sum_by q s.issues,
          sum_by-others (indicator q) c.id s.issues c (table.ids c.id) source,
          table.keys t.project_id f,
          has,
        ))
        (record {
          ids = λ j. omega (arith, count-others-le (has_id j) c.id s.issues, table.ids j);
          keys = λ p g. omega (arith, count-others-le (has_key p g) c.id s.issues, table.keys p g);
        })

  -- An override keeps the primary key and the unique index, so that the statements it runs meet no
  -- conflict.
  pub override_fingerprint_once-IsTable :
      (id : Uuid) (f : Str) (now : Timestamp) (s : Store Json)
      → IsTable s.issues
      → IsTable (override_fingerprint_once id f now s).0.issues
  override_fingerprint_once-IsTable id f now s table =
      override_cases (λ r. IsTable r.0.issues) id f now s table (λ t e same. table)
        (λ t e new free. rename-IsTable t f now s table e new free)
        λ t c e taken. merge-IsTable t c f now s table e taken
