-- ===== src/Ingest/RateLimit.antt =====
-- src/ingest/ratelimit.rs: the fixed-window request counter of each project.
pub mod Budget
pub mod Retry
mod Tests
use soika.Base.{ℕ, ◌+◌, ◌-◌, ◌≤◌, ◌≡◌, Option, none, some, List, [], ◌∷◌, max, leb, if◌then◌else◌}
use soika.Base.{Bool, true, false}
use soika.Base.Text.{Str, codes, str_eq}
use soika.Base.Dict.{Dict, lookup, insert}
use soika.Base.Time.{Instant, Duration, from_secs, as_secs}

abbrev pub default_limit : ℕ
default_limit = 300

abbrev pub default_window : Duration
default_window = from_secs 60

pub data Decision : Type 0 where
  allow : Decision
  limited : ℕ → Decision

abbrev pub is_limited : Decision → Bool
is_limited allow = false
is_limited (limited _) = true

pub record Window : Type 0 where
  pub window_start : Instant
  pub count : ℕ

pub record RateLimiter : Type 0 where
  pub limit : ℕ
  pub window : Duration
  pub state : Dict Window

unfoldable pub new : ℕ → Duration → RateLimiter
new limit window = record { limit = limit; window = window; state = [] }

abbrev pub window_or : Option Window → Window → Window
window_or none w = w
window_or (some w) _ = w

-- Roll the window forward if it has elapsed.
unfoldable pub roll : Duration → Instant → Window → Window
roll window now entry =
    if leb window (now - entry.window_start)
    then record { window_start = now; count = 0 }
    else entry

-- The test against the budget, on the entry as it then stands.
unfoldable pub spend : ℕ → Duration → Instant → Window → Window × Decision
spend limit window now entry =
    if leb limit entry.count
    then (entry, limited (max (as_secs (window - (now - entry.window_start))) 1))
    else (record entry { count = entry.count + 1 }, allow)

unfoldable pub check_at : RateLimiter → Str → Instant → RateLimiter × Decision
unfolding roll spend
check_at rl project_key now =
    let found =
      window_or (lookup project_key rl.state) (record { window_start = now; count = 0 }) in
    let (entry, decision) = spend rl.limit rl.window now (roll rl.window now found) in
    (record rl { state = insert project_key entry rl.state }, decision)

-- The requests of a history, each a project key and the clock's reading.
abbrev pub Request : Type 0
Request = Str × Instant
