-- ===== src/Auth/Lockout/Trace/Trip.antt =====
-- src/auth/lockout.rs: a key that fails the configured number of times, and a key after a success.
use soika.Base.{
  ◌+◌, ◌^◌, ◌≤◌, ◌<◌, ◌≡◌, refl, sym, subst, ap, ◌∙◌, arith, some, none, true, not, List, [], ◌∷◌,
  length, map,
}
use soika.Base.Text.{Str, str_eq_refl}
use soika.Base.Dict.{
  lookup, lookup-insert, lookup-remove, lookup-retain_kept, contains_key-lookup-some,
}
use soika.Base.Time.{Instant}
use soika.Auth.Lockout.{
  LockoutConfig, Entry, LoginGuard, allowed, prune_threshold, lockout_duration, fail, prune,
  tracked_key, is_idle, is_locked, new_entry, record_failure_at, record_success, check_at,
}
use soika.Auth.Lockout.Trace.{Outcome, failure, step, run}
use soika.Auth.Lockout.Trace.Hold.{record_failure_at-config}

-- Failures of one key at the given times.
abbrev pub failures_at : Str → List Instant → List Outcome
failures_at k = map (failure k)

abbrev pub AllBetween : Instant → Instant → List Instant → Type 0
AllBetween a b [] = Unit {0}
AllBetween a b (t ∷ ts) = (a ≤ t) × (t < b) × AllBetween a b ts

-- An entry in its first series of failures.
abbrev IsFirst : Instant → Entry → Type 0
IsFirst a e = (e.window_start ≡ a) × (e.level ≡ 0) × (e.locked_until ≡ none)

prune_counting :
    (g : LoginGuard) (k : Str) (now : Instant) (e : Entry)
    → lookup k g.entries ≡ some e
    → e.window_start ≤ now
    → now < e.window_start + g.config.window
    → lookup k (prune g.config now g.entries) ≡ some e
unfolding prune is_idle
prune_counting g k now e at p h =
    ground (arith, lookup-retain_kept (λ d. not (is_idle d now g.config.window)) k g.entries e at)

failure_counted :
    (g : LoginGuard) (k : Str) (now : Instant) (e : Entry)
    → g.config.enabled ≡ true
    → lookup k (prune g.config now g.entries) ≡ some e
    → lookup k (record_failure_at g k now).entries ≡ some (fail g.config now e)
unfolding record_failure_at tracked_key
failure_counted g k now e on at =
    let pruned = prune g.config now g.entries in
    ground (
      arith,
      contains_key-lookup-some k pruned e at,
      lookup-insert k k (fail g.config now e) pruned,
      str_eq_refl k,
    )

failure_new :
    (g : LoginGuard) (k : Str) (now : Instant)
    → g.config.enabled ≡ true
    → lookup k g.entries ≡ none
    → length g.entries < prune_threshold
    → lookup k (record_failure_at g k now).entries ≡ some (fail g.config now (new_entry now))
unfolding record_failure_at tracked_key prune
failure_new g k now on at room =
    ground (arith, lookup-insert k k (fail g.config now (new_entry now)) g.entries, str_eq_refl k)

fail_counts :
    (c : LockoutConfig) (now : Instant) (e : Entry)
    → e.window_start ≤ now
    → now < e.window_start + c.window
    → e.failures + 1 < c.max_attempts
    → c.max_attempts < 2 ^ 32
    → IsFirst e.window_start e
    → fail c now e ≡ record e { failures = e.failures + 1 }
unfolding fail
fail_counts c now e p q h small f = ground arith

fail_trips :
    (c : LockoutConfig) (now : Instant) (e : Entry)
    → e.window_start ≤ now
    → now < e.window_start + c.window
    → e.failures + 1 ≡ c.max_attempts
    → c.max_attempts < 2 ^ 32
    → IsFirst e.window_start e
    → (fail c now e).locked_until ≡ some (now + lockout_duration c 1)
unfolding fail
fail_trips c now e p q h small f = ground arith

check_at_tripped :
    (g : LoginGuard) (k : Str) (now until : Instant) (e : Entry)
    → g.config.enabled ≡ true
    → lookup k g.entries ≡ some e
    → e.locked_until ≡ some until
    → now < until
    → is_locked (check_at g k now) ≡ true
unfolding check_at
check_at_tripped g k now until e on at lock h = ground arith

trips_from :
    (ts : List Instant) (t : Instant) (g : LoginGuard) (k : Str) (a now : Instant) (e : Entry)
    → g.config.enabled ≡ true
    → lookup k g.entries ≡ some e
    → e.window_start ≡ a
    → IsFirst a e
    → AllBetween a (a + g.config.window) (t ∷ ts)
    → e.failures + length (t ∷ ts) ≡ g.config.max_attempts
    → g.config.max_attempts < 2 ^ 32
    → now < a + lockout_duration g.config 1
    → is_locked (check_at (run g (failures_at k (t ∷ ts))) k now) ≡ true
unfolding run step
trips_from [] t g k a now e on at start first b total small h =
    let same = record_failure_at-config g k t in
    let kept = prune_counting g k t e at (omega arith) (omega arith) in
    let trip = fail_trips g.config t e (omega arith) (omega arith) (omega arith) small first' in
    check_at_tripped (record_failure_at g k t) k now (t + lockout_duration g.config 1)
      (fail g.config t e) (ap (λ c. c.enabled) same ∙ on) (failure_counted g k t e on kept) trip
      (omega arith)
  where
    first' : IsFirst e.window_start e
    first' = (refl, first.1, first.2)
trips_from (t' ∷ ts) t g k a now e on at start first b total small h =
    let same = record_failure_at-config g k t in
    let kept = prune_counting g k t e at (omega arith) (omega arith) in
    let counts =
      fail_counts g.config t e (omega arith) (omega arith) (omega arith) small
        (refl, first.1, first.2) in
    trips_from ts t' (record_failure_at g k t) k a now (record e { failures = e.failures + 1 })
      (ap (λ c. c.enabled) same ∙ on) (failure_counted g k t e on kept ∙ ap some counts) start first
      (subst (λ c. AllBetween a (a + c.window) (t' ∷ ts)) (sym same) b.2)
      (ground (arith, total, ap (λ c. c.max_attempts) same))
      (ground (arith, small, ap (λ c. c.max_attempts) same)) (rw same h)

-- A key that the guard does not know, and that then fails as many times as configured, all within
-- one window from `a` on, is locked until the first lockout's duration after `a`, if the map was
-- not full at the start.
pub threshold_locks :
    (g : LoginGuard) (k : Str) (t : Instant) (ts : List Instant) (now : Instant)
    → g.config.enabled ≡ true
    → lookup k g.entries ≡ none
    → length g.entries < prune_threshold
    → AllBetween t (t + g.config.window) (t ∷ ts)
    → length (t ∷ ts) ≡ g.config.max_attempts
    → g.config.max_attempts < 2 ^ 32
    → now < t + lockout_duration g.config 1
    → is_locked (check_at (run g (failures_at k (t ∷ ts))) k now) ≡ true
unfolding run step
threshold_locks g k t [] now on at room b total small h =
    let same = record_failure_at-config g k t in
    let trip =
      fail_trips g.config t (new_entry t) (omega arith) b.1 total small (refl, refl, refl) in
    check_at_tripped (record_failure_at g k t) k now (t + lockout_duration g.config 1)
      (fail g.config t (new_entry t)) (ap (λ c. c.enabled) same ∙ on) (failure_new g k t on at room)
      trip h
threshold_locks g k t (t' ∷ ts) now on at room b total small h =
    let same = record_failure_at-config g k t in
    let counts =
      fail_counts g.config t (new_entry t) (omega arith) (omega arith) (omega arith) small
        (refl, refl, refl) in
    trips_from ts t' (record_failure_at g k t) k t now (record (new_entry t) { failures = 1 })
      (ap (λ c. c.enabled) same ∙ on) (failure_new g k t on at room ∙ ap some counts) refl
      (refl, refl, refl) (subst (λ c. AllBetween t (t + c.window) (t' ∷ ts)) (sym same) b.2)
      (ground (arith, total, ap (λ c. c.max_attempts) same))
      (ground (arith, small, ap (λ c. c.max_attempts) same)) (rw same h)

-- A success clears the key, and a key that is cleared may log in at once, if the map is not full.
pub record_success_clears :
    (g : LoginGuard) (k : Str) (now : Instant)
    → g.config.enabled ≡ true
    → length (record_success g k).entries < prune_threshold
    → (lookup k (record_success g k).entries ≡ none)
      × (check_at (record_success g k) k now ≡ allowed)
unfolding record_success check_at
record_success_clears g k now on room = ground (arith, lookup-remove k k g.entries, str_eq_refl k)
