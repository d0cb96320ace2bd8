-- ===== src/Auth/Lockout/Trace/Hold.antt =====
-- src/auth/lockout.rs: a locked key under further logins, with it or with other keys.
use soika.Base.{
  ℕ, suc, ◌+◌, ◌^◌, ◌≤◌, ◌<◌, ◌≡◌, refl, sym, ap, subst, ◌∙◌, arith, some, true, false, not, List,
  [], ◌∷◌, length, inl, inr, ◌⊎◌, ltb, if◌then◌else◌,
}
use soika.Base.Text.{Str, str_eq, str_eq_iff}
use soika.Base.Dict.{lookup, lookup-insert, lookup-remove, lookup-retain_kept}
use soika.Base.Time.{Instant}
use soika.Auth.Lockout.{
  LockoutConfig, Entry, LoginGuard, lockout_duration, fail, prune, tracked_key, is_idle, is_locked,
  u32, unwrap_or, new_entry, record_failure_at, record_success, check_at,
}
use soika.Auth.Lockout.Backoff.{lockout_duration_mono}
use soika.Auth.Lockout.Trace.{Outcome, failure, success, step, run, Spares, Within}

-- The entry is locked until `u` at least, by a lockout that its window and level account for.
pub record IsLockedPast (c : LockoutConfig) (u : Instant) (e : Entry) : Type 0 where
  pub until : Instant
  pub lock : e.locked_until ≡ some until
  pub late : u ≤ until
  pub armed : until ≤ e.window_start + lockout_duration c e.level

fail-IsLockedPast :
    (c : LockoutConfig) (u now : Instant) (e : Entry)
    → e.window_start ≤ now
    → now < u
    → e.level + 1 < 2 ^ 32
    → IsLockedPast c u e
    → IsLockedPast c u (fail c now e)
unfolding fail
fail-IsLockedPast c u now e p q r l =
    let longer = lockout_duration_mono c e.level (e.level + 1) (omega arith) in
    record {
      until =
          if ltb (u32 (e.failures + 1)) c.max_attempts
          then l.until
          else now + lockout_duration c (u32 (e.level + 1));
      lock = ground (arith, longer);
      late = ground (arith, longer);
      armed = ground (arith, longer);
    }

fail_modest :
    (c : LockoutConfig) (now : Instant) (e : Entry)
    → e.window_start ≤ now
    → ((fail c now e).window_start ≤ now) × ((fail c now e).level ≤ e.level + 1)
unfolding fail
fail_modest c now e p = ground arith

-- The key `k` is locked until `u` at least, its window began by `t`, and its level has room for
-- `n` more lockouts in a u32.
record Holds (c : LockoutConfig) (k : Str) (u t : Instant) (n : ℕ) (g : LoginGuard) : Type 0 where
  entry : Entry
  there : lookup k g.entries ≡ some entry
  held : IsLockedPast c u entry
  past : entry.window_start ≤ t
  room : entry.level + n < 2 ^ 32

locked_not_idle :
    (c : LockoutConfig) (u now : Instant) (e : Entry)
    → now < u
    → IsLockedPast c u e
    → not (is_idle e now c.window) ≡ true
unfolding is_idle
locked_not_idle c u now e q l = ground arith

prune_keeps :
    (g : LoginGuard) (k : Str) (u now : Instant) (e : Entry)
    → lookup k g.entries ≡ some e
    → now < u
    → IsLockedPast g.config u e
    → lookup k (prune g.config now g.entries) ≡ some e
unfolding prune
prune_keeps g k u now e at q l = ground (
  arith,
  lookup-retain_kept (λ d. not (is_idle d now g.config.window)) k g.entries e at
      (locked_not_idle g.config u now e q l),
)

lookup-failure :
    (g : LoginGuard) (j k : Str) (now : Instant) (e : Entry)
    → g.config.enabled ≡ true
    → lookup k (prune g.config now g.entries) ≡ some e
    → (lookup k (record_failure_at g j now).entries ≡ some e)
      ⊎ (lookup k (record_failure_at g j now).entries ≡ some (fail g.config now e))
unfolding record_failure_at
lookup-failure g j k now e on at =
    let pruned = prune g.config now g.entries in
    let tracked = tracked_key j pruned in
    let after = fail g.config now (unwrap_or (lookup tracked pruned) (new_entry now)) in
    ground (arith, lookup-insert tracked k after pruned, str_eq_iff tracked k)

pub record_failure_at-config :
    (g : LoginGuard) (j : Str) (now : Instant) → (record_failure_at g j now).config ≡ g.config
unfolding record_failure_at
record_failure_at-config g j now = ground arith

pub record_success-config : (g : LoginGuard) (j : Str) → (record_success g j).config ≡ g.config
unfolding record_success
record_success-config g j = ground arith

failure-Holds :
    (g : LoginGuard) (j k : Str) (u t now : Instant) (n : ℕ)
    → g.config.enabled ≡ true
    → t ≤ now
    → now < u
    → Holds g.config k u t (suc n) g
    → Holds g.config k u now n (record_failure_at g j now)
failure-Holds g j k u t now n on p q h =
    let kept = prune_keeps g k u now h.entry h.there q h.held in
    let modest = fail_modest g.config now h.entry (omega arith) in
    elim (lookup-failure g j k now h.entry on kept) [
      | inl e ↦ record {
        entry = h.entry;
        there = e;
        held = h.held;
        past = omega arith;
        room = omega arith;
      }
      | inr e ↦ record {
        entry = fail g.config now h.entry;
        there = e;
        held = fail-IsLockedPast g.config u now h.entry (omega arith) q (omega arith) h.held;
        past = modest.0;
        room = omega arith;
      }
    ]

success-Holds :
    (g : LoginGuard) (j k : Str) (u t : Instant) (n : ℕ)
    → str_eq j k ≡ false
    → Holds g.config k u t (suc n) g
    → Holds g.config k u t n (record_success g j)
unfolding record_success
success-Holds g j k u t n other h = record {
  entry = h.entry;
  there = ground (arith, h.there, lookup-remove j k g.entries);
  held = h.held;
  past = h.past;
  room = omega arith;
}

run-Holds :
    (os : List Outcome) (g : LoginGuard) (k : Str) (u t : Instant)
    → g.config.enabled ≡ true
    → Spares k os
    → Within t u os
    → Holds g.config k u t (length os) g
    → (s : Instant) × Holds g.config k u s 0 (run g os) × ((run g os).config ≡ g.config)
unfolding run step
run-Holds [] g k u t on a b h = (t, h, refl)
run-Holds (failure j now ∷ os) g k u t on a b h =
    let same = record_failure_at-config g j now in
    let next = failure-Holds g j k u t now (length os) on b.0 b.1 h in
    let (s, rest, config) =
      run-Holds os (record_failure_at g j now) k u now (ap (λ c. c.enabled) same ∙ on) a b.2
        (subst (λ c. Holds c k u now (length os) (record_failure_at g j now)) (sym same) next) in
    (s, subst (λ c. Holds c k u s 0 (run (record_failure_at g j now) os)) same rest, config ∙ same)
run-Holds (success j ∷ os) g k u t on a b h =
    let same = record_success-config g j in
    let next = success-Holds g j k u t (length os) a.0 h in
    let (s, rest, config) =
      run-Holds os (record_success g j) k u t (ap (λ c. c.enabled) same ∙ on) a.1 b
        (subst (λ c. Holds c k u t (length os) (record_success g j)) (sym same) next) in
    (s, subst (λ c. Holds c k u s 0 (run (record_success g j) os)) same rest, config ∙ same)

check_at_held :
    (g : LoginGuard) (k : Str) (u now : Instant) (e : Entry)
    → g.config.enabled ≡ true
    → lookup k g.entries ≡ some e
    → IsLockedPast g.config u e
    → now < u
    → is_locked (check_at g k now) ≡ true
unfolding check_at
check_at_held g k u now e on at l q = ground arith

-- While `k` is locked, by a lockout that its entry accounts for, it stays locked to the end `u` of
-- that lockout, whatever logins fail meanwhile, with `k` or with other keys, and whatever logins
-- with other keys succeed, as long as the u32 level has room for one more lockout for each.
pub lockout_holds :
    (g : LoginGuard) (k : Str) (e : Entry) (u t now : Instant) (os : List Outcome)
    → g.config.enabled ≡ true
    → lookup k g.entries ≡ some e
    → e.locked_until ≡ some u
    → u ≤ e.window_start + lockout_duration g.config e.level
    → e.window_start ≤ t
    → e.level + length os < 2 ^ 32
    → Spares k os
    → Within t u os
    → now < u
    → is_locked (check_at (run g os) k now) ≡ true
lockout_holds g k e u t now os on at lock armed past room spares within q =
    let start : Holds g.config k u t (length os) g = record {
      entry = e;
      there = at;
      held = record { until = u; lock = lock; late = omega arith; armed = armed };
      past = past;
      room = room;
    } in
    let (s, h, same) = run-Holds os g k u t on spares within start in
    check_at_held (run g os) k u now h.entry (ap (λ c. c.enabled) same ∙ on) h.there
      (subst (λ c. IsLockedPast c u h.entry) (sym same) h.held) q
