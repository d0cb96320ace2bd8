-- ===== src/Auth/Session/Expiry.antt =====
-- src/adapters/sqlite/session.rs: the sweep of expired sessions.
use soika.Base.{◌≡◌, ◌≤◌, refl, arith, Option, none, some, ltb, Option-cases, inl, inr}
use soika.Base.Text.{Str}
use soika.Issues.Types.{Timestamp}
use soika.Ingest.Request.{Headers}
use soika.Auth.Session.{
  Session, Sessions, State, session_id_from_headers, keep_row, find, delete_expired,
  authenticate_user,
}

keep_twice :
    (now later : Timestamp) (row : Option Session)
    → now ≤ later
    → keep_row (λ s. ltb later s.expires_at) (keep_row (λ s. ltb now s.expires_at) row)
      ≡ keep_row (λ s. ltb later s.expires_at) row
keep_twice now later none h = refl
keep_twice now later (some s) h = ground arith

find-delete_expired :
    (now later : Timestamp) (id : Str) (sessions : Sessions)
    → now ≤ later
    → find later id (delete_expired now sessions) ≡ find later id sessions
unfolding find delete_expired
find-delete_expired now later id sessions h = keep_twice now later (sessions id) h

-- A sweep of the sessions that have expired changes no answer on who a later request is.
pub authenticate_user-delete_expired :
    (state : State) (headers : Headers) (now later : Timestamp) (sessions : Sessions)
    → now ≤ later
    → authenticate_user state headers later (delete_expired now sessions)
      ≡ authenticate_user state headers later sessions
unfolding authenticate_user
authenticate_user-delete_expired state headers now later sessions h =
    elim (Option-cases (session_id_from_headers state headers)) [
      | inl e ↦ rw e refl
      | inr (id, e) ↦ rw (e, find-delete_expired now later id sessions h) refl
    ]
