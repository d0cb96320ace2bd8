-- ===== src/Auth/Lockout/Trace.antt =====
-- src/auth/lockout.rs: the guard over any sequence of login outcomes, on any keys.
pub mod Hold
pub mod Tolerate
pub mod Trip
use soika.Base.{ℕ, suc, ◌≤◌, ◌<◌, ◌≡◌, Bool, List, [], ◌∷◌, true, false, if◌then◌else◌}
use soika.Base.Text.{Str, str_eq}
use soika.Base.Time.{Instant}
use soika.Auth.Lockout.{LoginGuard, record_failure_at, record_success}

-- A checked login, as the login handler reports it to the guard.
pub data Outcome : Type 0 where
  failure : Str → Instant → Outcome
  success : Str → Outcome

unfoldable pub step : LoginGuard → Outcome → LoginGuard
step g (failure key now) = record_failure_at g key now
step g (success key) = record_success g key

unfoldable pub run : LoginGuard → List Outcome → LoginGuard
run g [] = g
run g (o ∷ os) = run (step g o) os

-- No login with this key succeeds.
abbrev pub Spares : Str → List Outcome → Type 0
Spares k [] = Unit {0}
Spares k (failure j now ∷ os) = Spares k os
Spares k (success j ∷ os) = (str_eq j k ≡ false) × Spares k os

-- The failures come in order, from `t` on and before `u`.
abbrev pub Within : Instant → Instant → List Outcome → Type 0
Within t u [] = Unit {0}
Within t u (failure j now ∷ os) = (t ≤ now) × (now < u) × Within now u os
Within t u (success j ∷ os) = Within t u os

-- The failures with this key.
unfoldable pub failures_of : Str → List Outcome → ℕ
failures_of k [] = 0
failures_of k (failure j now ∷ os) = let n = failures_of k os in if str_eq j k then suc n else n
failures_of k (success j ∷ os) = failures_of k os
