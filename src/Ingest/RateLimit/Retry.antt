-- ===== src/Ingest/RateLimit/Retry.antt =====
-- src/ingest/ratelimit.rs: the `Retry-After` hint of a refused request.
use soika.Base.{
  ℕ, ◌+◌, ◌-◌, ◌/◌, ◌%◌, ◌≤◌, ◌<◌, ◌≡◌, refl, sym, ap, ◌∙◌, Option, none, some, arith, true,
}
use soika.Base.Text.{Str, str_eq_refl}
use soika.Base.Dict.{lookup, lookup-insert}
use soika.Base.Time.{Instant, Duration, nanos_per_sec, from_secs}
use soika.Ingest.RateLimit.Budget.{outcome}
use soika.Ingest.RateLimit.{allow, limited, is_limited, Window, RateLimiter, check_at}

-- What is left of a window at `now`.
abbrev pub time_left : RateLimiter → Window → Instant → Duration
time_left rl w now = rl.window - (now - w.window_start)

-- Two requests of one project in a row.
check_at_twice :
    (rl : RateLimiter) (k : Str) (now later : Instant) (o : Option Window)
    → lookup k rl.state ≡ o
    → let first = outcome rl.limit rl.window o now in
      ((check_at rl k now).1 ≡ first.1)
      × ((check_at (check_at rl k now).0 k later).1
          ≡ (outcome rl.limit rl.window (some first.0) later).1)
unfolding check_at outcome
check_at_twice rl k now later o e =
    let first = λ (p : Option Window). outcome rl.limit rl.window p now in
    let stored : lookup k (check_at rl k now).0.state ≡ some (first o).0 =
      lookup-insert k k (first (lookup k rl.state)).0 rl.state
      ∙ rw (str_eq_refl k) (ap (λ p. some (first p).0) e) in
    (ap (λ p. (first p).1) e, ap (λ p. (outcome rl.limit rl.window p later).1) stored)

outcome_refused :
    (limit : ℕ) (window : Duration) (o : Option Window) (now : Instant) (s : ℕ)
    → 0 < limit
    → ((w : Window) → o ≡ some w → w.window_start ≤ now)
    → (outcome limit window o now).1 ≡ limited s
    → (1 ≤ s)
      × ((outcome limit window (some (outcome limit window o now).0) (now + from_secs (s + 1))).1
          ≡ allow)
unfolding outcome
outcome_refused limit window none now s p m h = ground arith
outcome_refused limit window (some w) now s p m h = ground (arith, m w refl)

-- A refused request gets a hint of at least one second, and the same project is let through one
-- second after the hinted time, if the limit is not 0 and nothing else is asked in between.
pub limited_hint :
    (rl : RateLimiter) (k : Str) (now : Instant) (s : ℕ)
    → 0 < rl.limit
    → ((w : Window) → lookup k rl.state ≡ some w → w.window_start ≤ now)
    → (check_at rl k now).1 ≡ limited s
    → (1 ≤ s) × ((check_at (check_at rl k now).0 k (now + from_secs (s + 1))).1 ≡ allow)
limited_hint rl k now s p m h =
    let (first, second) = check_at_twice rl k now (now + from_secs (s + 1)) _ refl in
    let refused =
      outcome_refused rl.limit rl.window (lookup k rl.state) now s p m (sym first ∙ h) in
    (refused.0, second ∙ refused.1)

outcome_early :
    (limit : ℕ) (window : Duration) (w : Window) (now : Instant) (left : Duration)
    → limit ≤ w.count
    → w.window_start ≤ now
    → left ≡ window - (now - w.window_start)
    → nanos_per_sec ≤ left
    → 0 < left % nanos_per_sec
    → ((outcome limit window (some w) now).1 ≡ limited (left / nanos_per_sec))
      × (is_limited
            (outcome limit window
              (some (outcome limit window (some w) now).0)
              (now + from_secs (left / nanos_per_sec))).1
          ≡ true)
unfolding outcome
outcome_early limit window w now left full after e long part = ground arith

-- The hint is the time left in the window, with its fraction of a second cut off: where at least
-- a second is left and it is no whole number of seconds, a client that waits exactly as long as
-- it was told is refused again.
pub limited_hint_early :
    (rl : RateLimiter) (k : Str) (now : Instant) (w : Window)
    → lookup k rl.state ≡ some w
    → rl.limit ≤ w.count
    → w.window_start ≤ now
    → nanos_per_sec ≤ time_left rl w now
    → 0 < time_left rl w now % nanos_per_sec
    → ((check_at rl k now).1 ≡ limited (time_left rl w now / nanos_per_sec))
      × (is_limited
            (check_at
              (check_at rl k now).0
              k
              (now + from_secs (time_left rl w now / nanos_per_sec))).1
          ≡ true)
limited_hint_early rl k now w e full after long part =
    let left = time_left rl w now in
    let (first, second) = check_at_twice rl k now (now + from_secs (left / nanos_per_sec)) _ e in
    let early = outcome_early rl.limit rl.window w now left full after refl long part in
    (first ∙ early.0, ap is_limited second ∙ early.1)
