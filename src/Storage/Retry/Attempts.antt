-- ===== src/Storage/Retry/Attempts.antt =====
-- src/adapters/retry.rs: how often a write is tried, and what comes of it.
use soika.Base.{
  ℕ, zero, suc, ◌+◌, ◌≤◌, ◌<◌, ◌≡◌, refl, ap, arith, Bool, true, false, some, List, [], ◌∷◌, leb,
  length, Bool-cases, inl, inr, ◌⊎◌,
}
use soika.Base.Text.{Str}
use soika.Base.Time.{Duration}
use soika.Base.Result.{Result, ok, err, Result-cases}
use soika.Errors.{Error, db_busy, is_busy}
use soika.Storage.Retry.{WritePolicy, backoff, retry_loop, retry_write}

-- Whether a result is an error that the loop tries again.
unfoldable pub is_busy_result : {T : Type 0} → Result Error T → Bool
is_busy_result (ok value) = false
is_busy_result (err e) = is_busy e

module _ {S : Type 0} {T : Type 0} (op : S → S × Result Error T) where
  -- The state after some calls of the operation, and the result of the call after them.
  unfoldable pub after : ℕ → S → S
  after zero s = s
  after (suc n) s = after n (op s).0

  abbrev pub result_of : ℕ → S → Result Error T
  result_of n s = (op (after n s)).1

  -- What a run that has slept `n` times, with `left` retries at its start, has done.
  pub record Tried (left : ℕ) (what : Str) (s : S) (n : ℕ) (s' : S) (r : Result Error T)
      : Type 0 where
    pub few : n ≤ left
    pub retried : (k : ℕ) → k < n → is_busy_result (result_of k s) ≡ true
    pub state : s' ≡ after (suc n) s
    pub verdict :
        ((is_busy_result (result_of n s) ≡ false) × (r ≡ result_of n s))
        ⊎ ((e : Error) × (result_of n s ≡ err e)
            × (is_busy e ≡ true)
            × (r ≡ err (db_busy what e))
            × (n ≡ left))

  once_more :
      (left : ℕ) (what : Str) (s : S) (n : ℕ) (s' : S) (r : Result Error T)
      → is_busy_result (op s).1 ≡ true
      → Tried left what (op s).0 n s' r
      → Tried (suc left) what s (suc n) s' r
  unfolding after
  once_more left what s n s' r busy t = record {
    few = omega (arith, t.few);
    retried = λ k. elim k as (λ k. k < suc n → is_busy_result (result_of k s) ≡ true) [
      | zero ↦ λ h. busy
      | suc k ↦ λ h. t.retried k (omega arith)
    ];
    state = t.state;
    verdict = elim t.verdict [
      | inl h ↦ inl h
      | inr (e, h, b, q, full) ↦ inr (e, h, b, q, ap suc full)
    ];
  }

  -- A run of the loop ends, and has tried that often.
  abbrev Ends : ℕ → WritePolicy → Str → (ℕ → ℕ → ℕ) → ℕ → S → Type 0
  Ends left policy what draw attempt s =
      (s' : S) × (r : Result Error T) × (slept : List Duration) × (retry_loop (suc left) policy what
          op draw attempt s
        ≡ some (s', r, slept))
      × Tried left what s (length slept) s' r

  settled :
      (left : ℕ) (what : Str) (s : S)
      → is_busy_result (op s).1 ≡ false
      → Tried left what s 0 (op s).0 (op s).1
  unfolding after
  settled left what s calm = record {
    few = omega arith;
    retried = λ k h. let no : ⊥ = omega arith in absurd no;
    state = refl;
    verdict = inl (calm, refl);
  }

  Ends-settled :
      (left : ℕ) (policy : WritePolicy) (what : Str) (draw : ℕ → ℕ → ℕ) (attempt : ℕ) (s : S)
      → is_busy_result (op s).1 ≡ false
      → Ends left policy what draw attempt s
  unfolding retry_loop is_busy_result
  Ends-settled left policy what draw attempt s calm = elim (Result-cases (op s).1) [
    | inr (value, e) ↦ ((op s).0, (op s).1, [], rw (e, retry_loop), settled left what s calm)
    | inl (x, e) ↦
        let fatal : is_busy x ≡ false = rw e at calm in
        ((op s).0, (op s).1, [], rw (e, retry_loop, fatal), settled left what s calm)
  ]

  busy-error :
      (r : Result Error T)
      → is_busy_result r ≡ true
      → (e : Error) × (r ≡ err e) × (is_busy e ≡ true)
  unfolding is_busy_result
  busy-error (ok value) h = cc
  busy-error (err e) h = (e, refl, h)

  retry_loop-Tried :
      (left : ℕ) (policy : WritePolicy) (what : Str) (draw : ℕ → ℕ → ℕ) (attempt : ℕ) (s : S)
      → policy.max_retries ≡ attempt + left
      → Ends left policy what draw attempt s
  unfolding retry_loop after
  retry_loop-Tried zero policy what draw attempt s budget =
      elim (Bool-cases (is_busy_result (op s).1)) [
        | inr calm ↦ Ends-settled zero policy what draw attempt s calm
        | inl busy ↦
            let (x, e, b) = busy-error (op s).1 busy in
            let spent : leb policy.max_retries attempt ≡ true = ground arith in
            (
              (op s).0,
              err (db_busy what x),
              [],
              rw (e, retry_loop, b, spent),
              record {
                few = omega arith;
                retried = λ k h. let no : ⊥ = omega arith in absurd no;
                state = refl;
                verdict = inr (x, e, b, refl, refl);
              },
            )
      ]
  retry_loop-Tried (suc left) policy what draw attempt s budget =
      elim (Bool-cases (is_busy_result (op s).1)) [
        | inr calm ↦ Ends-settled (suc left) policy what draw attempt s calm
        | inl busy ↦
            let (x, e, b) = busy-error (op s).1 busy in
            let more : leb policy.max_retries attempt ≡ false = ground arith in
            let (s', r, slept, run, tried) =
              retry_loop-Tried left policy what draw (attempt + 1) (op s).0 (omega arith) in
            (
              s',
              r,
              backoff policy attempt (draw attempt) ∷ slept,
              rw (e, retry_loop, b, more, run),
              once_more left what s (length slept) s' r busy tried,
            )
      ]

  -- A retried write ends, with at most `max_retries` delays. Each call before the last one failed
  -- on a lock; the last one's result is handed back as it is, unless it too failed on a lock: then
  -- the budget is spent, and the error says that the database is busy and keeps the lock's error.
  -- The state is the one after the calls made.
  pub retry_write-Tried :
      (policy : WritePolicy) (what : Str) (draw : ℕ → ℕ → ℕ) (s : S)
      → (s' : S) × (r : Result Error T) × (slept : List Duration) × (retry_write policy what op draw
            s
          ≡ some (s', r, slept))
        × Tried policy.max_retries what s (length slept) s' r
  unfolding retry_write
  retry_write-Tried policy what draw s =
      retry_loop-Tried policy.max_retries policy what draw 0 s (omega arith)
