-- ===== src/Auth/Lockout.antt =====
-- src/auth/lockout.rs: the brute-force guard of password logins. The clock's reading is an argument
-- of each call, as in the `_at` forms of the source; a u32 counter wraps.
pub mod Backoff
pub mod Memory
pub mod Trace
mod Tests
use soika.Base.{
  ℕ, ◌+◌, ◌-◌, ◌*◌, ◌/◌, ◌%◌, ◌^◌, ◌≡◌, Option, none, some, [], ◌∷◌, ◌++◌, min, max, leb, ltb, ◌==◌,
  if◌then◌else◌, Bool, true, false, not, ◌&&◌, length,
}
use soika.Base.Text.{Str, codes}
use soika.Base.Dict.{Dict, lookup, insert, remove, retain, contains_key}
use soika.Base.Time.{Instant, Duration, nanos_per_sec, from_secs, as_secs, subsec_nanos}

abbrev pub prune_threshold : ℕ
prune_threshold = 10000

abbrev pub overflow_key : Str
overflow_key = codes "<overflow>"

abbrev pub u32 : ℕ → ℕ
u32 n = n % 2 ^ 32

abbrev pub u32_max : ℕ
u32_max = 2 ^ 32 - 1

pub data LockoutDecision : Type 0 where
  allowed : LockoutDecision
  locked : ℕ → LockoutDecision

abbrev pub is_locked : LockoutDecision → Bool
is_locked allowed = false
is_locked (locked _) = true

pub record LockoutConfig : Type 0 where
  pub enabled : Bool
  pub max_attempts : ℕ
  pub window : Duration
  pub base_lockout : Duration
  pub max_lockout : Duration

abbrev pub default_config : LockoutConfig
default_config = record {
  enabled = true;
  max_attempts = 5;
  window = from_secs 900;
  base_lockout = from_secs 60;
  max_lockout = from_secs 3600;
}

pub record Entry : Type 0 where
  pub failures : ℕ
  pub window_start : Instant
  pub locked_until : Option Instant
  pub level : ℕ

abbrev pub new_entry : Instant → Entry
new_entry now = record { failures = 0; window_start = now; locked_until = none; level = 0 }

-- `is_none_or (|until| now >= until)`, and its opposite `is_some_and (|until| now < until)`.
abbrev pub is_over : Option Instant → Instant → Bool
is_over none now = true
is_over (some until) now = leb until now

abbrev pub is_active : Option Instant → Instant → Bool
is_active none now = false
is_active (some until) now = ltb now until

unfoldable pub is_idle : Entry → Instant → Duration → Bool
is_idle e now window = is_over e.locked_until now && leb window (now - e.window_start)

pub record LoginGuard : Type 0 where
  pub config : LockoutConfig
  pub entries : Dict Entry

unfoldable pub new : LockoutConfig → LoginGuard
new config = record { config = config; entries = [] }

-- `Duration::checked_mul` overflows where the seconds pass a u64.
abbrev pub duration_mod : ℕ
duration_mod = 2 ^ 64 * nanos_per_sec

abbrev pub checked_mul : Duration → ℕ → Option Duration
checked_mul d n = if ltb (d * n) duration_mod then some (d * n) else none

abbrev pub unwrap_or {ℓ} : {A : Type ℓ} → Option A → A → A
unwrap_or none d = d
unwrap_or (some a) d = a

unfoldable pub lockout_duration : LockoutConfig → ℕ → Duration
lockout_duration c level =
    let shift = level - 1 in
    let factor = if leb 31 shift then u32_max else 2 ^ shift in
    min (unwrap_or (checked_mul c.base_lockout factor) c.max_lockout) c.max_lockout

unfoldable pub secs_until : Instant → Instant → ℕ
secs_until now until =
    let remaining = until - now in
    max (if ltb 0 (subsec_nanos remaining) then as_secs remaining + 1 else as_secs remaining) 1

-- The lockout of an entry, as `check_at` reads it.
abbrev pub decision : Option Instant → Instant → LockoutDecision
decision none now = allowed
decision (some until) now = if ltb now until then locked (secs_until now until) else allowed

-- `entry.and_then(|e| e.locked_until)`.
abbrev pub lock_of : Option Entry → Option Instant
lock_of none = none
lock_of (some e) = e.locked_until

abbrev pub or_else {ℓ} : {A : Type ℓ} → Option A → Option A → Option A
or_else none d = d
or_else (some a) d = some a

unfoldable pub check_at : LoginGuard → Str → Instant → LockoutDecision
check_at g key now =
    if not g.config.enabled
    then allowed
    else decision
        (lock_of (
          or_else (lookup key g.entries) (
            if leb prune_threshold (length g.entries)
            then lookup overflow_key g.entries
            else none)))
        now

-- Roll the failure-counting window forward when it has elapsed and no lockout is active.
unfoldable pub roll : LockoutConfig → Instant → Entry → Entry
roll c now e =
    if not (is_active e.locked_until now) && leb c.window (now - e.window_start)
    then record e { failures = 0; window_start = now }
    else e

-- Count one failure on the entry, and lock it at the threshold.
unfoldable pub fail : LockoutConfig → Instant → Entry → Entry
unfolding roll
fail c now entry =
    let e = roll c now entry in
    let failures = u32 (e.failures + 1) in
    let level = u32 (e.level + 1) in
    if ltb failures c.max_attempts then record e { failures = failures } else record {
      failures = 0;
      window_start = now;
      locked_until = some (now + lockout_duration c level);
      level = level;
    }

-- Idle entries go once the map is full.
unfoldable pub prune : LockoutConfig → Instant → Dict Entry → Dict Entry
prune c now entries =
    if leb prune_threshold (length entries)
    then retain (λ e. not (is_idle e now c.window)) entries
    else entries

unfoldable pub tracked_key : Str → Dict Entry → Str
tracked_key key entries =
    if leb prune_threshold (length entries) && not (contains_key key entries)
    then overflow_key
    else key

unfoldable pub record_failure_at : LoginGuard → Str → Instant → LoginGuard
record_failure_at g key now =
    if not g.config.enabled
    then g
    else let entries = prune g.config now g.entries in
      let tracked = tracked_key key entries in
      let entry = unwrap_or (lookup tracked entries) (new_entry now) in
      record g { entries = insert tracked (fail g.config now entry) entries }

unfoldable pub record_success : LoginGuard → Str → LoginGuard
record_success g key =
    if not g.config.enabled then g else record g { entries = remove key g.entries }

-- `format!("{ip}|{email}")`.
unfoldable pub lockout_key : Str → Str → Str
lockout_key ip email = ip ++ (b'|' ∷ email)
