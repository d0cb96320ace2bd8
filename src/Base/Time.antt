-- ===== src/Base/Time.antt =====
-- `std::time`: an `Instant` is the nanoseconds since the clock's start, a `Duration` a number of
-- nanoseconds. `duration_since` and `saturating_sub` stop at 0, as `-` does here.
use Prim.Native.Nat.{ℕ, ◌*◌, ◌/◌, ◌%◌}

abbrev pub Instant : Type 0
Instant = ℕ

abbrev pub Duration : Type 0
Duration = ℕ

abbrev pub nanos_per_sec : ℕ
nanos_per_sec = 1000000000

abbrev pub from_secs : ℕ → Duration
from_secs s = s * nanos_per_sec

abbrev pub as_secs : Duration → ℕ
as_secs d = d / nanos_per_sec

abbrev pub subsec_nanos : Duration → ℕ
subsec_nanos d = d % nanos_per_sec
