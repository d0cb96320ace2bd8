-- ===== src/Ingest/RateLimit/Tests.antt =====
-- Runs of the rate limiter, and the theorems at them.
use soika.Base.{◌+◌, ◌≤◌, ◌≡◌, refl, [], ◌∷◌, arith, true, List}
use soika.Base.Text.{codes, str_eq}
use soika.Base.Dict.{lookup}
use soika.Base.Time.{from_secs}
use soika.Ingest.RateLimit.{
  RateLimiter, allow, limited, is_limited, new, check_at, Request, default_limit, default_window,
}
use soika.Ingest.RateLimit.Budget.{granted, requests, IsWithin, granted_fresh}
use soika.Ingest.RateLimit.Retry.{limited_hint, limited_hint_early}

abbrev two_a_minute : RateLimiter
two_a_minute = record { limit = 2; window = from_secs 60; state = [] }

-- Project "a" has used up its window, which opened at second 1.
abbrev full : RateLimiter
full = record two_a_minute {
  state = (codes "a", record { window_start = from_secs 1; count = 2 }) ∷ [];
}

abbrev burst : List Request
burst =
    (codes "a", from_secs 2)
    ∷ (codes "b", from_secs 3)
    ∷ (codes "a", from_secs 4)
    ∷ (codes "a", from_secs 5)
    ∷ []

new_is_empty :
    new default_limit default_window ≡ record { limit = 300; window = from_secs 60; state = [] }
unfolding new
new_is_empty = refl

check_at-full : (check_at full (codes "a") (from_secs 30)).1 ≡ limited 31
unfolding check_at lookup str_eq
check_at-full = refl

check_at_rolls : (check_at full (codes "a") (from_secs 61)).1 ≡ allow
unfolding check_at lookup str_eq
check_at_rolls = refl

full-IsWithin : IsWithin full
unfolding lookup
full-IsWithin k w h = ground arith

granted_fresh_example : granted (codes "a") two_a_minute burst ≡ 2
unfolding lookup str_eq requests
granted_fresh_example =
    granted_fresh (codes "a") (from_secs 2) burst two_a_minute refl (omega arith) (ground arith)

limited_hint_example :
    (1 ≤ 31)
    × ((check_at
          (check_at full (codes "a") (from_secs 30)).0
          (codes "a")
          (from_secs 30 + from_secs (31 + 1))).1
        ≡ allow)
unfolding lookup str_eq
limited_hint_example =
    limited_hint full (codes "a") (from_secs 30) 31 (omega arith) (λ w h. ground arith)
      check_at-full

limited_hint_early_example :
    ((check_at full (codes "a") (from_secs 30 + 1)).1 ≡ limited 30)
    × (is_limited
          (check_at
            (check_at full (codes "a") (from_secs 30 + 1)).0
            (codes "a")
            (from_secs 30 + 1 + from_secs 30)).1
        ≡ true)
unfolding lookup str_eq
limited_hint_early_example =
    limited_hint_early full (codes "a") (from_secs 30 + 1)
      (record { window_start = from_secs 1; count = 2 }) refl (omega arith) (omega arith)
      (omega arith) (omega arith)
