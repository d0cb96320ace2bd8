-- ===== src/Auth/Lockout/Trace/Tolerate.antt =====
-- src/auth/lockout.rs: a key that fails fewer times than the configured number.
use soika.Base.{
  ℕ, suc, ◌+◌, ◌^◌, ◌≤◌, ◌<◌, ◌≡◌, ◌≢◌, refl, sym, ap, subst, ◌∙◌, arith, none, true, false, ◌⊎◌,
  Option-cases, List, [], ◌∷◌, length, Bool-cases, inl, inr, leb, if◌then◌else◌,
}
use soika.Base.Text.{Str, str_eq, str_eq_iff, ne_of_str_eq}
use soika.Base.Dict.{
  Dict, lookup, insert, AllAt, AllAt-map, AllAt-lookup, AllAt-lookup-none, AllAt-insert,
  AllAt-retain, AllAt-remove,
}
use soika.Base.Time.{Instant}
use soika.Auth.Lockout.{
  LockoutConfig, Entry, LoginGuard, allowed, prune_threshold, overflow_key, fail, prune,
  tracked_key, unwrap_or, new_entry, record_failure_at, record_success, check_at,
}
use soika.Auth.Lockout.Trace.{Outcome, failure, success, step, run, failures_of}
use soika.Auth.Lockout.Trace.Hold.{record_failure_at-config, record_success-config}

-- Not locked, with at most `n` failures counted.
abbrev IsOpen : ℕ → Entry → Type 0
IsOpen n e = (e.locked_until ≡ none) × (e.failures ≤ n)

fail-IsOpen :
    (c : LockoutConfig) (now : Instant) (n : ℕ) (e : Entry)
    → suc n < c.max_attempts
    → c.max_attempts < 2 ^ 32
    → IsOpen n e
    → IsOpen (suc n) (fail c now e)
unfolding fail
fail-IsOpen c now n e h small o = ground arith

stored_or_new :
    (n : ℕ) (now : Instant) (k : Str) (m : Dict Entry)
    → AllAt k (IsOpen n) m
    → IsOpen n (unwrap_or (lookup k m) (new_entry now))
stored_or_new n now k m a = elim (Option-cases (lookup k m)) [
  | inl e ↦ rw e (refl, omega arith)
  | inr (v, e) ↦ rw e (AllAt-lookup k (IsOpen n) m v a e)
]

prune-AllAt :
    (c : LockoutConfig) (now : Instant) (n : ℕ) (k : Str) (m : Dict Entry)
    → AllAt k (IsOpen n) m
    → AllAt k (IsOpen n) (prune c now m)
unfolding prune
prune-AllAt c now n k m a = elim (Bool-cases (leb prune_threshold (length m))) [
  | inl full ↦ rw full (AllAt-retain _ k (IsOpen n) m a)
  | inr room ↦ rw room a
]

-- A failure is counted under its own key or the overflow key.
tracked_key_cases :
    (j : Str) (m : Dict Entry) → (tracked_key j m ≡ j) ⊎ (tracked_key j m ≡ overflow_key)
unfolding tracked_key
tracked_key_cases j m = ground arith

insert_failure-IsOpen :
    (c : LockoutConfig) (now : Instant) (n : ℕ) (j k : Str) (m : Dict Entry)
    → k ≢ overflow_key
    → (if str_eq j k then suc n else n) < c.max_attempts
    → c.max_attempts < 2 ^ 32
    → AllAt k (IsOpen n) m
    → let entry = unwrap_or (lookup (tracked_key j m) m) (new_entry now) in
      AllAt k
        (IsOpen (if str_eq j k then suc n else n))
        (insert (tracked_key j m) (fail c now entry) m)
insert_failure-IsOpen c now n j k m apart h small a = elim (Bool-cases (str_eq j k)) [
  | inl same ↦ rw same (
      AllAt-insert _ k (IsOpen (suc n)) _ m
        (λ e.
          subst (λ x. IsOpen (suc n) (fail c now (unwrap_or (lookup x m) (new_entry now))))
            (sym ((str_eq_iff _ k).0 e))
            (fail-IsOpen c now n _ (rw same at h) small (stored_or_new n now k m a)))
        (AllAt-map k (IsOpen n) (IsOpen (suc n)) m (λ e o. (o.0, omega (arith, o.1))) a))
  | inr other ↦ rw other (AllAt-insert _ k (IsOpen n) _ m (λ e. absurd (elsewhere e other)) a)
]
  where
    elsewhere : str_eq (tracked_key j m) k ≡ true → str_eq j k ≡ false → ⊥
    elsewhere e other =
        let eq = (str_eq_iff (tracked_key j m) k).0 e in
        elim (tracked_key_cases j m) [
          | inl own ↦ ne_of_str_eq j k other (sym own ∙ eq)
          | inr over ↦ apart (sym eq ∙ over)
        ]

failure_AllAt :
    (g : LoginGuard) (j : Str) (now : Instant) (k : Str) (n : ℕ)
    → k ≢ overflow_key
    → (if str_eq j k then suc n else n) < g.config.max_attempts
    → g.config.max_attempts < 2 ^ 32
    → AllAt k (IsOpen n) g.entries
    → AllAt k (IsOpen (if str_eq j k then suc n else n)) (record_failure_at g j now).entries
unfolding record_failure_at
failure_AllAt g j now k n apart h small a = elim (Bool-cases g.config.enabled) [
  | inl on ↦ simp on (
      insert_failure-IsOpen g.config now n j k (prune g.config now g.entries) apart h small
        (prune-AllAt g.config now n k g.entries a))
  | inr off ↦ simp off (AllAt-map k (IsOpen n) _ g.entries (λ e o. (o.0, ground (arith, o.1))) a)
]

success_AllAt :
    (g : LoginGuard) (j k : Str) (n : ℕ)
    → AllAt k (IsOpen n) g.entries
    → AllAt k (IsOpen n) (record_success g j).entries
unfolding record_success
success_AllAt g j k n a = elim (Bool-cases g.config.enabled) [
  | inl on ↦ simp on (AllAt-remove j k (IsOpen n) g.entries a)
  | inr off ↦ simp off a
]

check_at_open :
    (g : LoginGuard) (k : Str) (now : Instant) (n : ℕ)
    → length g.entries < prune_threshold
    → AllAt k (IsOpen n) g.entries
    → check_at g k now ≡ allowed
unfolding check_at
check_at_open g k now n room a = elim (Option-cases (lookup k g.entries)) [
  | inl e ↦ ground arith
  | inr (v, e) ↦ ground (arith, AllAt-lookup k (IsOpen n) g.entries v a e)
]

run-IsOpen :
    (os : List Outcome) (g : LoginGuard) (k : Str) (n : ℕ)
    → k ≢ overflow_key
    → n + failures_of k os < g.config.max_attempts
    → g.config.max_attempts < 2 ^ 32
    → AllAt k (IsOpen n) g.entries
    → (m : ℕ) × AllAt k (IsOpen m) (run g os).entries
unfolding run step failures_of
run-IsOpen [] g k n apart h small a = (n, a)
run-IsOpen (failure j now ∷ os) g k n apart h small a =
    let same = record_failure_at-config g j now in
    run-IsOpen os (record_failure_at g j now) k (if str_eq j k then suc n else n) apart
      (ground (arith, h, ap (λ c. c.max_attempts) same))
      (ground (arith, small, ap (λ c. c.max_attempts) same))
      (failure_AllAt g j now k n apart (ground (arith, h)) small a)
run-IsOpen (success j ∷ os) g k n apart h small a =
    let same = record_success-config g j in
    run-IsOpen os (record_success g j) k n apart (ground (arith, h, ap (λ c. c.max_attempts) same))
      (ground (arith, small, ap (λ c. c.max_attempts) same)) (success_AllAt g j k n a)

-- A user whose key fails fewer times than the configured number is never locked out, whatever
-- other keys do in between, as long as the map is not full at the end and the key is not the
-- overflow key itself.
pub below_threshold_allowed :
    (g : LoginGuard) (k : Str) (os : List Outcome) (now : Instant)
    → lookup k g.entries ≡ none
    → k ≢ overflow_key
    → failures_of k os < g.config.max_attempts
    → g.config.max_attempts < 2 ^ 32
    → length (run g os).entries < prune_threshold
    → check_at (run g os) k now ≡ allowed
below_threshold_allowed g k os now fresh apart few small room =
    let start = AllAt-lookup-none k (IsOpen 0) g.entries fresh in
    let (m, open_at) = run-IsOpen os g k 0 apart (omega arith) small start in
    check_at_open (run g os) k now m room open_at
