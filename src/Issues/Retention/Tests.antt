-- ===== src/Issues/Retention/Tests.antt =====
-- Three events, two of them old, and the theorem at them.
use soika.Base.{ℕ, ◌≡◌, refl, arith, none, some, List, [], ◌∷◌}
use soika.Base.Text.{codes}
use soika.Base.Result.{Result, ok}
use soika.Errors.{Error}
use soika.Issues.Types.{Event}
use soika.Issues.Retention.{delete_chunk, delete_in_batches, is_older, delete_older_than}
use soika.Issues.Retention.Sweep.{Swept, delete_older_than-Swept}

abbrev at : ℕ → Event ℕ
at time = record {
  id = time;
  event_id = codes "e";
  issue_id = 7;
  project_id = 1;
  payload = 0;
  received_at = time;
}

abbrev stored : List (Event ℕ)
stored = at 5 ∷ at 90 ∷ at 8 ∷ []

two_old : delete_older_than 1 (λ k. none) 1 50 stored ≡ some (at 90 ∷ [], ok 2)
unfolding delete_older_than delete_in_batches delete_chunk
two_old = refl

delete_older_than-Swept_example :
    (left : List (Event ℕ)) × (r : Result Error ℕ) × (delete_older_than 1 (λ k. none) 1 50 stored
      ≡ some (left, r))
    × Swept (is_older 1 50) (λ k. none) stored 0 left r
delete_older_than-Swept_example = delete_older_than-Swept 1 (λ k. none) 1 50 stored (omega arith)
