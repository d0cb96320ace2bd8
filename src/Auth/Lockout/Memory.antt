-- ===== src/Auth/Lockout/Memory.antt =====
-- src/auth/lockout.rs: how many keys the guard tracks.
use soika.Base.{◌+◌, ◌≤◌, arith, not, length}
use soika.Base.Text.{Str, str_eq_refl}
use soika.Base.Dict.{
  Dict, lookup, insert, has, length-insert, contains_key-insert, length-retain-has,
  length-remove-has,
}
use soika.Base.Time.{Instant}
use soika.Auth.Lockout.{
  LockoutConfig, Entry, LoginGuard, prune_threshold, overflow_key, prune, tracked_key, fail,
  record_failure_at, unwrap_or, new_entry, is_idle, record_success,
}

-- At most the threshold, and one more if the overflow entry is among them.
abbrev pub IsBounded : Dict Entry → Type 0
IsBounded m = length m ≤ prune_threshold + has overflow_key m

prune-IsBounded :
    (c : LockoutConfig) (now : Instant) (m : Dict Entry) → IsBounded m → IsBounded (prune c now m)
unfolding prune
prune-IsBounded c now m b =
    ground (arith, length-retain-has (λ e. not (is_idle e now c.window)) overflow_key m)

has-insert_le : (k j : Str) (e : Entry) (m : Dict Entry) → has j m ≤ has j (insert k e m)
unfolding has
has-insert_le k j e m = ground (arith, contains_key-insert k j e m)

insert-IsBounded :
    (key : Str) (e : Entry) (m : Dict Entry)
    → IsBounded m
    → IsBounded (insert (tracked_key key m) e m)
unfolding tracked_key has
insert-IsBounded key e m b = ground (
  arith,
  length-insert key e m,
  length-insert overflow_key e m,
  contains_key-insert key overflow_key e m,
  contains_key-insert overflow_key overflow_key e m,
  str_eq_refl overflow_key,
)

-- A failed login keeps the number of tracked keys within the threshold and one.
pub record_failure_at-IsBounded :
    (g : LoginGuard) (key : Str) (now : Instant)
    → IsBounded g.entries
    → IsBounded (record_failure_at g key now).entries
unfolding record_failure_at
record_failure_at-IsBounded g key now b =
    let pruned = prune g.config now g.entries in
    let entry =
      fail g.config now (unwrap_or (lookup (tracked_key key pruned) pruned) (new_entry now)) in
    ground (arith, insert-IsBounded key entry pruned (prune-IsBounded g.config now g.entries b))

-- A successful login keeps the number of tracked keys within the threshold and one.
pub record_success-IsBounded :
    (g : LoginGuard) (key : Str) → IsBounded g.entries → IsBounded (record_success g key).entries
unfolding record_success
record_success-IsBounded g key b = ground (arith, length-remove-has key overflow_key g.entries)
