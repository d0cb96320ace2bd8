-- ===== src/Storage/Retry/Tests.antt =====
-- A database that is locked for two calls, and the theorems at it.
use soika.Base.{ℕ, zero, suc, ◌≡◌, refl, true, false, some, List, length}
use soika.Base.Int.{pos}
use soika.Base.Text.{codes}
use soika.Base.Time.{Duration}
use soika.Base.Result.{Result, ok, err}
use soika.Errors.{Error, db, database, is_busy, is_busy_code}
use soika.Storage.Retry.{default_policy, retry_write}
use soika.Storage.Retry.Attempts.{Tried, retry_write-Tried}

-- SQLITE_BUSY_SNAPSHOT, the extended code of a lock.
abbrev locked : Error
locked = db (
    database (record {
      is_pg = false;
      code = some (codes "517");
      number = some (pos 517);
      message = codes "busy";
    }))

locked-is_busy : is_busy locked ≡ true
unfolding is_busy is_busy_code
locked-is_busy = refl

-- The state counts the calls left until the lock is gone.
abbrev write : ℕ → ℕ × Result Error ℕ
write zero = (zero, ok 7)
write (suc n) = (n, err locked)

retry_write-Tried_example :
    (s' : ℕ) × (r : Result Error ℕ) × (slept : List Duration) × (retry_write default_policy
        (codes "insert")
        write
        (λ attempt spread. 0)
        2
      ≡ some (s', r, slept))
    × Tried write 5 (codes "insert") 2 (length slept) s' r
retry_write-Tried_example =
    retry_write-Tried write default_policy (codes "insert") (λ attempt spread. 0) 2
