-- ===== src/Issues/Retention.antt =====
-- src/adapters/sqlite/event.rs: the deletion of old events, in batches. A statement with a `LIMIT`
-- and no order deletes the first rows that match, in the order of the table.
pub mod Sweep
mod Tests
use soika.Base.{
  ℕ, zero, suc, ◌+◌, Bool, true, false, ◌&&◌, Option, none, some, List, [], ◌∷◌, ltb, ◌==◌,
  if◌then◌else◌, length,
}
use soika.Base.Result.{Result, ok, err}
use soika.Errors.{Error}
use soika.Issues.Types.{Uuid, Timestamp, Event}

module _ {Json : Type 0} where
  -- One statement: at most so many of the rows that match go; the rows left, and how many went.
  unfoldable pub delete_chunk : (Event Json → Bool) → ℕ → List (Event Json) → List (Event Json) × ℕ
  delete_chunk p zero rows = (rows, 0)
  delete_chunk p (suc n) [] = ([], 0)
  delete_chunk p (suc n) (e ∷ rows) =
      let gone = delete_chunk p n rows in
      let kept = delete_chunk p (suc n) rows in
      if p e then (gone.0, gone.1 + 1) else (e ∷ kept.0, kept.1)

  -- The loop of `delete_in_batches`, on fuel. `fault k` is the error that the retries of the k-th
  -- statement end with, if they do; the statement then changes nothing.
  unfoldable pub delete_in_batches :
      ℕ
      → (Event Json → Bool)
      → ℕ
      → (ℕ → Option Error)
      → ℕ
      → ℕ
      → List (Event Json)
      → Option (List (Event Json) × Result Error ℕ)
  unfolding delete_chunk
  delete_in_batches zero p batch fault k total rows = none
  delete_in_batches (suc fuel) p batch fault k total rows = elim (fault k) [
    | some e ↦ some (rows, err e)
    | none ↦
        let (rows', deleted) = delete_chunk p batch rows in
        elim (ltb deleted batch) [
          | true ↦ some (rows', ok (total + deleted))
          | false ↦ delete_in_batches fuel p batch fault (k + 1) (total + deleted) rows'
        ]
  ]

  abbrev pub is_older : Uuid → Timestamp → Event Json → Bool
  is_older project_id cutoff e = (e.project_id == project_id) && ltb e.received_at cutoff

  unfoldable pub delete_older_than :
      ℕ
      → (ℕ → Option Error)
      → Uuid
      → Timestamp
      → List (Event Json)
      → Option (List (Event Json) × Result Error ℕ)
  unfolding delete_in_batches
  delete_older_than batch fault project_id cutoff rows =
      delete_in_batches (suc (length rows)) (is_older project_id cutoff) batch fault 0 0 rows
