-- ===== src/Storage/Retry/Delay.antt =====
-- src/config.rs, WritePolicy::backoff: how long the delay before a retry is.
use soika.Base.{ℕ, ◌+◌, ◌-◌, ◌*◌, ◌/◌, ◌%◌, ◌^◌, ◌≤◌, ◌<◌, ◌≡◌, min, max, refl, arith}
use soika.Storage.Retry.{WritePolicy, backoff, capped_millis, nanos_per_milli, factor, duration_max}

jitter-bounds :
    (millis draw : ℕ)
    → 1 ≤ millis
    → millis < 2 ^ 63
    → draw ≤ max (millis / 2) 1
    → let jittered = (millis - max (millis / 2) 1 / 2 + draw) % 2 ^ 64 in
      (1 ≤ jittered) × (3 * millis ≤ 4 * jittered) × (4 * jittered ≤ 5 * millis + 3)
jitter-bounds millis draw some_time short inside = omega arith

capped_millis-bounds :
    (p : WritePolicy) (attempt : ℕ)
    → p.retry_max < 2 ^ 63 * nanos_per_milli
    → (1 ≤ capped_millis p attempt) × (capped_millis p attempt < 2 ^ 63)
unfolding capped_millis
capped_millis-bounds p attempt cap = omega arith

capped_millis_lem :
    (p : WritePolicy) (attempt : ℕ)
    → p.retry_max < 2 ^ 63 * nanos_per_milli
    → attempt < 32
    → capped_millis p attempt
      ≡ max (min (p.retry_base * 2 ^ attempt) p.retry_max / nanos_per_milli) 1
unfolding capped_millis
capped_millis_lem p attempt cap small =
    let shift : factor attempt ≡ 2 ^ attempt = ground arith in
    rw (capped_millis, shift) (capped (p.retry_base * 2 ^ attempt) p.retry_max cap)
  where
    capped :
        (delay cap : ℕ)
        → cap < 2 ^ 63 * nanos_per_milli
        → max (min (min delay duration_max) cap / nanos_per_milli) 1 % 2 ^ 64
          ≡ max (min delay cap / nanos_per_milli) 1
    capped delay cap h = omega arith

-- The delay before retry `attempt` is a whole number of milliseconds, at least one. It is within a
-- quarter (rounded up to the next millisecond) of the base doubled for each retry and cut at the
-- maximum, for the first 32 retries and a maximum under 2 ^ 63 milliseconds.
pub backoff-bounds :
    (p : WritePolicy) (attempt : ℕ) (draw : ℕ → ℕ)
    → p.retry_max < 2 ^ 63 * nanos_per_milli
    → attempt < 32
    → ((n : ℕ) → draw n ≤ n)
    → let target = max (min (p.retry_base * 2 ^ attempt) p.retry_max / nanos_per_milli) 1 in
      (millis : ℕ) × (backoff p attempt draw ≡ millis * nanos_per_milli)
      × (1 ≤ millis)
      × (3 * target ≤ 4 * millis)
      × (4 * millis ≤ 5 * target + 3)
unfolding backoff
backoff-bounds p attempt draw cap small inside =
    let (least, most) = capped_millis-bounds p attempt cap in
    let d = capped_millis p attempt in
    let target = capped_millis_lem p attempt cap small in
    let (one, low, high) = jitter-bounds d (draw (max (d / 2) 1)) least most (inside _) in
    (_, refl, one, omega arith, omega arith)
