-- ===== src/Storage/Retry.antt =====
-- src/adapters/retry.rs, with the write policy of src/config.rs: writes are tried again while
-- the database is locked, with a growing delay.
pub mod Delay
pub mod Attempts
mod Tests
use soika.Base.{
  ℕ, zero, suc, ◌+◌, ◌-◌, ◌*◌, ◌/◌, ◌%◌, ◌^◌, min, max, Bool, true, false, ◌||◌, Option, none, some,
  List, [], ◌∷◌, ltb, leb, ◌==◌, any, if◌then◌else◌, map,
}
use soika.Base.Int.{ℤ, pos, negsuc}
use soika.Base.Text.{Str, codes, str_eq, contains, to_lower}
use soika.Base.Time.{Duration, nanos_per_sec}
use soika.Base.Result.{Result, ok, err}
use soika.Errors.{Error, db_busy, is_busy}

pub record WritePolicy : Type 0 where
  pub max_retries : ℕ
  pub retry_base : Duration
  pub retry_max : Duration
  pub delete_batch : ℤ

abbrev pub nanos_per_milli : ℕ
nanos_per_milli = 1000000

abbrev pub default_policy : WritePolicy
default_policy = record {
  max_retries = 5;
  retry_base = 20 * nanos_per_milli;
  retry_max = 500 * nanos_per_milli;
  delete_batch = pos 500;
}

abbrev pub u32_max : ℕ
u32_max = 2 ^ 32 - 1

-- `Duration::MAX`.
abbrev pub duration_max : Duration
duration_max = 2 ^ 64 * nanos_per_sec - 1

-- `1u32.checked_shl(attempt).unwrap_or(u32::MAX)`.
abbrev pub factor : ℕ → ℕ
factor attempt = if ltb attempt 32 then 2 ^ attempt else u32_max

-- The delay in milliseconds before the jitter: `as u64` keeps the low 64 bits.
unfoldable pub capped_millis : WritePolicy → ℕ → ℕ
capped_millis p attempt =
    let delay = min (min (p.retry_base * factor attempt) duration_max) p.retry_max in
    max (delay / nanos_per_milli) 1 % 2 ^ 64

-- `draw` is the random number that is taken from 0 to the spread. The sum is one of u64.
unfoldable pub backoff : WritePolicy → ℕ → (ℕ → ℕ) → Duration
unfolding capped_millis
backoff p attempt draw =
    let millis = capped_millis p attempt in
    let spread = max (millis / 2) 1 in
    (millis - spread / 2 + draw spread) % 2 ^ 64 * nanos_per_milli

module _ {S : Type 0} {T : Type 0} where
  -- A run with one more delay before it.
  abbrev pub slept_first :
      Duration
      → Option (S × Result Error T × List Duration)
      → Option (S × Result Error T × List Duration)
  slept_first delay none = none
  slept_first delay (some (s, r, slept)) = some (s, r, delay ∷ slept)

  -- The loop of `retry_write`, on fuel: the operation acts on the database's state. The delays slept
  -- are handed back.
  unfoldable pub retry_loop :
      ℕ
      → WritePolicy
      → Str
      → (S → S × Result Error T)
      → (ℕ → ℕ → ℕ)
      → ℕ
      → S
      → Option (S × Result Error T × List Duration)
  unfolding is_busy backoff
  retry_loop zero policy what op draw attempt s = none
  retry_loop (suc fuel) policy what op draw attempt s =
      let (s', result) = op s in
      elim result [
        | ok value ↦ some (s', ok value, [])
        | err e ↦ elim (is_busy e) [
          | false ↦ some (s', err e, [])
          | true ↦ elim (leb policy.max_retries attempt) [
            | true ↦ some (s', err (db_busy what e), [])
            | false ↦
                let delay = backoff policy attempt (draw attempt) in
                slept_first delay (retry_loop fuel policy what op draw (attempt + 1) s')
          ]
        ]
      ]

  unfoldable pub retry_write :
      WritePolicy
      → Str
      → (S → S × Result Error T)
      → (ℕ → ℕ → ℕ)
      → S
      → Option (S × Result Error T × List Duration)
  unfolding retry_loop
  retry_write policy what op draw s = retry_loop (suc policy.max_retries) policy what op draw 0 s
