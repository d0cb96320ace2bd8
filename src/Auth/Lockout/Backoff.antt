-- ===== src/Auth/Lockout/Backoff.antt =====
-- src/auth/lockout.rs: how long a lockout lasts, and the hint that a client gets.
use soika.Base.{ℕ, suc, ◌+◌, ◌-◌, ◌*◌, ◌^◌, ◌≤◌, ◌<◌, ◌≡◌, arith, min, leb, ltb, ◌∙◌, if◌then◌else◌}
use native.Mathlib.Nat.{pow-le-pow_right, mul-le-mul_left}
use soika.Base.Time.{Duration, Instant, from_secs}
use soika.Auth.Lockout.{LockoutConfig, lockout_duration, secs_until, duration_mod, u32_max}

factor : ℕ → ℕ
factor level = if leb 31 (level - 1) then u32_max else 2 ^ (level - 1)

factor_mono : (l m : ℕ) → l ≤ m → factor l ≤ factor m
unfolding factor
factor_mono l m h = ground (
  arith,
  pow-le-pow_right {n = 2} (omega arith) {i = l - 1} {j = m - 1} (omega arith),
  bound_30 (l - 1),
)
  where
    bound_30 : (n : ℕ) → n ≤ 30 → 2 ^ n ≤ 1073741824
    bound_30 n small = pow-le-pow_right {n = 2} (omega arith) small

-- The product with the factor, in the way that the duration saturates.
capped : LockoutConfig → ℕ → Duration
capped c product = min (if ltb product duration_mod then product else c.max_lockout) c.max_lockout

capped_mono : (c : LockoutConfig) (a b : ℕ) → a ≤ b → capped c a ≤ capped c b
unfolding capped
capped_mono c a b h = ground arith

lockout_duration-capped :
    (c : LockoutConfig) (level : ℕ)
    → lockout_duration c level ≡ capped c (c.base_lockout * factor level)
unfolding lockout_duration capped factor
lockout_duration-capped c level = ground arith

-- A lockout never lasts longer than the configured maximum.
pub lockout_duration-le-max :
    (c : LockoutConfig) (level : ℕ) → lockout_duration c level ≤ c.max_lockout
unfolding lockout_duration
lockout_duration-le-max c level = omega arith

-- A higher level never gives a shorter lockout.
pub lockout_duration_mono :
    (c : LockoutConfig) (l m : ℕ) → l ≤ m → lockout_duration c l ≤ lockout_duration c m
lockout_duration_mono c l m h = omega (
  arith,
  lockout_duration-capped c l,
  lockout_duration-capped c m,
  capped_mono c (c.base_lockout * factor l) (c.base_lockout * factor m)
      (mul-le-mul_left c.base_lockout (factor_mono l m h)),
)

-- Up to the thirty-first lockout of a series the duration is exactly the base doubled once for
-- each lockout before it, cut off at the maximum, if the maximum is a `Duration`.
pub lockout_duration_doubles :
    (c : LockoutConfig) (n : ℕ)
    → n < 31
    → c.max_lockout < duration_mod
    → lockout_duration c (suc n) ≡ min (c.base_lockout * 2 ^ n) c.max_lockout
unfolding factor capped
lockout_duration_doubles c n h fits =
    lockout_duration-capped c (suc n) ∙ rw (suc-sub-one n) (ground arith)
  where
    suc-sub-one : (m : ℕ) → suc m - 1 ≡ m
    suc-sub-one m = omega arith

-- The wait in seconds covers the rest of the lockout, and one second less would not.
pub secs_until_tight :
    (now until : Instant)
    → now < until
    → (until ≤ now + from_secs (secs_until now until))
      × (now + from_secs (secs_until now until - 1) < until)
      × (1 ≤ secs_until now until)
unfolding secs_until
secs_until_tight now until h = ground arith
