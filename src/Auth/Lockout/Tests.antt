-- ===== src/Auth/Lockout/Tests.antt =====
-- Runs of the guard, and the theorems at them.
use soika.Base.{◌+◌, ◌≡◌, refl, some, [], ◌∷◌, arith, true, List, length}
use soika.Base.Text.{Str, codes, str_eq, ne_of_str_eq}
use soika.Base.Dict.{lookup, insert, contains_key}
use soika.Base.Time.{from_secs}
use soika.Auth.Lockout.{
  LoginGuard, LockoutConfig, Entry, default_config, allowed, locked, is_locked, new, prune,
  tracked_key, lockout_duration, secs_until, fail, check_at, record_failure_at, lockout_key,
}
use soika.Auth.Lockout.Memory.{IsBounded, record_failure_at-IsBounded}
use soika.Auth.Lockout.Trace.{Outcome, failure, success, step, run, failures_of}
use soika.Auth.Lockout.Trace.Hold.{lockout_holds}
use soika.Auth.Lockout.Trace.Tolerate.{below_threshold_allowed}
use soika.Auth.Lockout.Trace.Trip.{failures_at, threshold_locks}

abbrev alice : Str
alice = codes "10.0.0.1|alice@example.org"

abbrev bob : Str
bob = codes "10.0.0.1|bob@example.org"

alice_key : lockout_key (codes "10.0.0.1") (codes "alice@example.org") ≡ alice
unfolding lockout_key
alice_key = refl

abbrev twice : LockoutConfig
twice = record default_config { max_attempts = 2 }

abbrev empty : LoginGuard
empty = record { config = twice; entries = [] }

abbrev locked_entry : Entry
locked_entry = record {
  failures = 0;
  window_start = from_secs 10;
  locked_until = some (from_secs 70);
  level = 1;
}

abbrev holding : LoginGuard
holding = record { config = twice; entries = (alice, locked_entry) ∷ [] }

new-empty : new twice ≡ empty
unfolding new
new-empty = refl

check_at-holding : check_at holding alice (from_secs 20 + 1) ≡ locked 50
unfolding check_at lookup str_eq secs_until
check_at-holding = refl

check_at_over : check_at holding alice (from_secs 70) ≡ allowed
unfolding check_at lookup str_eq
check_at_over = refl

record_failure_at-IsBounded_example : IsBounded (record_failure_at holding bob 5).entries
record_failure_at-IsBounded_example = record_failure_at-IsBounded holding bob 5 (omega arith)

abbrev attack : List Outcome
attack =
    failure alice (from_secs 20)
    ∷ failure bob (from_secs 21)
    ∷ success bob
    ∷ failure alice (from_secs 22)
    ∷ []

lockout_holds_example : is_locked (check_at (run holding attack) alice (from_secs 69)) ≡ true
unfolding lookup str_eq lockout_duration
lockout_holds_example =
    lockout_holds holding alice locked_entry (from_secs 70) (from_secs 10) (from_secs 69) attack
      refl refl refl (omega arith) (omega arith) (omega arith) (refl, tt) (omega arith)
      (omega arith)

abbrev typo : List Outcome
typo = failure bob 5 ∷ failure alice 6 ∷ failure bob 7 ∷ []

typo_size : length (run empty typo).entries ≡ 2
unfolding run step record_failure_at prune tracked_key fail insert lookup str_eq contains_key
typo_size = refl

below_threshold_allowed_example : check_at (run empty typo) alice 8 ≡ allowed
unfolding lookup str_eq failures_of
below_threshold_allowed_example =
    below_threshold_allowed empty alice typo 8 refl (ne_of_str_eq _ _ refl) (omega arith)
      (omega arith) (omega (arith, typo_size))

threshold_locks_example :
    is_locked (check_at (run empty (failures_at alice (5 ∷ 6 ∷ []))) alice (from_secs 60)) ≡ true
unfolding lookup lockout_duration
threshold_locks_example =
    threshold_locks empty alice 5 (6 ∷ []) (from_secs 60) refl refl (omega arith) (omega arith) refl
      (omega arith) (omega arith)
