-- ===== src/Issues/Retention/Sweep.antt =====
-- src/adapters/sqlite/event.rs: deletion in batches, against the deletion of all that match.
use soika.Base.{
  ℕ, zero, suc, ◌+◌, ◌≤◌, ◌<◌, ◌≡◌, refl, sym, ◌∙◌, arith, Bool, not, Option, some, List, [], ◌∷◌,
  ltb, length, filter, Bool-cases, Option-cases, inl, inr, length-filter-le,
}
use soika.Base.Result.{Result, ok, err}
use soika.Errors.{Error}
use soika.Issues.Types.{Uuid, Timestamp, Event}
use soika.Issues.Retention.{delete_chunk, delete_in_batches, is_older, delete_older_than}

module _ {Json : Type 0} (p : Event Json → Bool) where
  -- How many rows match, and the rows that do not.
  abbrev pub matching : List (Event Json) → ℕ
  matching rows = length (filter p rows)

  abbrev pub others : List (Event Json) → List (Event Json)
  others rows = filter (λ e. not (p e)) rows

  chunk-others : (n : ℕ) (rows : List (Event Json)) → others (delete_chunk p n rows).0 ≡ others rows
  unfolding delete_chunk
  chunk-others zero rows = refl
  chunk-others (suc n) [] = refl
  chunk-others (suc n) (e ∷ rows) = ground (arith, chunk-others n rows, chunk-others (suc n) rows)

  chunk-matching :
      (n : ℕ) (rows : List (Event Json))
      → (delete_chunk p n rows).1 + matching (delete_chunk p n rows).0 ≡ matching rows
  unfolding delete_chunk
  chunk-matching zero rows = omega arith
  chunk-matching (suc n) [] = refl
  chunk-matching (suc n) (e ∷ rows) =
      ground (arith, chunk-matching n rows, chunk-matching (suc n) rows)

  chunk_short :
      (n : ℕ) (rows : List (Event Json))
      → (delete_chunk p n rows).1 < n
      → matching (delete_chunk p n rows).0 ≡ 0
  unfolding delete_chunk
  chunk_short zero rows h = let no : ⊥ = omega arith in absurd no
  chunk_short (suc n) [] h = refl
  chunk_short (suc n) (e ∷ rows) h = ground (arith, chunk_short n rows, chunk_short (suc n) rows)

  others_all : (rows : List (Event Json)) → matching rows ≡ 0 → others rows ≡ rows
  others_all [] h = refl
  others_all (e ∷ rows) h = ground (arith, others_all rows)

  -- What a sweep comes to. With no error exactly the matching rows are gone, and they are counted;
  -- an error is that of a statement, and the rows that do not match are all there still.
  abbrev pub Swept :
      (ℕ → Option Error) → List (Event Json) → ℕ → List (Event Json) → Result Error ℕ → Type 0
  Swept fault rows total left (ok n) = (left ≡ others rows) × (n ≡ total + matching rows)
  Swept fault rows total left (err e) = ((k : ℕ) × (fault k ≡ some e)) × (others left ≡ others rows)

  -- A sweep of what a chunk left is a sweep of what was there before.
  Swept-chunk :
      (batch : ℕ) (fault : ℕ → Option Error) (rows : List (Event Json)) (total : ℕ)
      (left : List (Event Json)) (r : Result Error ℕ)
      → Swept fault (delete_chunk p batch rows).0 (total + (delete_chunk p batch rows).1) left r
      → Swept fault rows total left r
  Swept-chunk batch fault rows total left (ok n) (h, q) =
      (h ∙ chunk-others batch rows, omega (arith, q, chunk-matching batch rows))
  Swept-chunk batch fault rows total left (err e) (h, q) = (h, q ∙ chunk-others batch rows)

  delete_in_batches-Swept :
      (fuel batch : ℕ) (fault : ℕ → Option Error) (k total : ℕ) (rows : List (Event Json))
      → 1 ≤ batch
      → matching rows < fuel
      → (left : List (Event Json)) × (r : Result Error ℕ) × (delete_in_batches fuel p batch fault k
            total rows
          ≡ some (left, r))
        × Swept fault rows total left r
  unfolding delete_in_batches
  delete_in_batches-Swept zero batch fault k total rows some_rows enough =
      let no : ⊥ = omega arith in absurd no
  delete_in_batches-Swept (suc fuel) batch fault k total rows some_rows enough =
      let left = (delete_chunk p batch rows).0 in
      let deleted = (delete_chunk p batch rows).1 in
      elim (Option-cases (fault k)) [
        | inr (e, bad) ↦ (rows, err e, rw (bad, delete_in_batches), ((k, bad), refl))
        | inl fine ↦ elim (Bool-cases (ltb deleted batch)) [
          | inl short ↦
              let none_left = chunk_short batch rows (ground arith) in
              (
                left,
                ok (total + deleted),
                rw (fine, delete_in_batches, short),
                (
                  sym (others_all left none_left) ∙ chunk-others batch rows,
                  omega (arith, none_left, chunk-matching batch rows),
                ),
              )
          | inr full ↦
              let more : batch ≤ deleted = ground arith in
              let (end, r, run, swept) =
                delete_in_batches-Swept fuel batch fault (k + 1) (total + deleted) left some_rows
                  (omega (arith, chunk-matching batch rows)) in
              (
                end,
                r,
                rw (fine, delete_in_batches, full, run),
                Swept-chunk batch fault rows total end r swept,
              )
        ]
      ]

-- The sweep of old events ends, for a batch of at least one row. If no statement fails, exactly the
-- project's events from before the cutoff are gone, and their number is reported. If one fails, its
-- error is reported, and every other event is still there.
pub delete_older_than-Swept :
    {Json : Type 0} (batch : ℕ) (fault : ℕ → Option Error) (project_id : Uuid) (cutoff : Timestamp)
    (rows : List (Event Json))
    → 1 ≤ batch
    → (left : List (Event Json)) × (r : Result Error ℕ) × (delete_older_than batch fault project_id
          cutoff rows
        ≡ some (left, r))
      × Swept (is_older project_id cutoff) fault rows 0 left r
unfolding delete_older_than
delete_older_than-Swept batch fault project_id cutoff rows some_rows =
    let old = is_older project_id cutoff in
    delete_in_batches-Swept old (suc (length rows)) batch fault 0 0 rows some_rows
      (omega (arith, length-filter-le old rows))
