-- ===== src/Auth/Session.antt =====
-- src/auth/session.rs, src/adapters/sqlite/session.rs, and `AdminUsers` of src/config.rs: sessions and
-- who a request is. Ids of sessions are unique, so the table is a function of them. The check of a
-- cookie's signature is given.
pub mod Expiry
pub mod Carried
pub mod Who
mod Tests
use soika.Base.{
  ℕ, ◌+◌, ◌*◌, Bool, true, false, not, ◌&&◌, Option, none, some, List, [], ◌∷◌, map, any,
  if◌then◌else◌, ltb, leb, ◌==◌,
}
use soika.Base.Text.{Str, codes, str_eq, to_lower, trim, split_once}
use soika.Base.Time.{from_secs}
use soika.Base.Result.{Result, ok, err, ok_or, ◌>>=◌}
use soika.Errors.{Error, auth}
use soika.Issues.Types.{Uuid, Timestamp}
use soika.Access.User.{
  User, UserStatus, active, pending, InstanceRole, owner, session_allowed_with_sso,
}
use soika.Ingest.Request.{Headers, split}

pub record Session : Type 0 where
  pub id : Str
  pub user_id : Uuid
  pub created_at : Timestamp
  pub expires_at : Timestamp

abbrev pub Sessions : Type 0
Sessions = Str → Option Session

abbrev pub session_ttl_days : ℕ
session_ttl_days = 30

abbrev pub session_ttl : ℕ
session_ttl = from_secs (session_ttl_days * 86400)

-- `INSERT INTO sessions`.
unfoldable pub create : Str → Uuid → Timestamp → Timestamp → Sessions → Sessions
create id user_id now expires_at sessions i =
    if str_eq i id
    then some (record { id = id; user_id = user_id; created_at = now; expires_at = expires_at })
    else sessions i

-- The rows that pass a test.
abbrev pub keep_row : (Session → Bool) → Option Session → Option Session
keep_row p none = none
keep_row p (some session) = if p session then some session else none

unfoldable pub find : Timestamp → Str → Sessions → Option Session
find now id sessions = keep_row (λ s. ltb now s.expires_at) (sessions id)

unfoldable pub delete : Str → Sessions → Sessions
delete id sessions i = if str_eq i id then none else sessions i

unfoldable pub delete_for_user : Uuid → Sessions → Sessions
delete_for_user user_id sessions i = keep_row (λ s. not (s.user_id == user_id)) (sessions i)

unfoldable pub delete_expired : Timestamp → Sessions → Sessions
delete_expired now sessions i = keep_row (λ s. ltb now s.expires_at) (sessions i)

abbrev pub and_then {ℓ κ} : {A : Type ℓ} {B : Type κ} → Option A → (A → Option B) → Option B
and_then none f = none
and_then (some a) f = f a

-- The loop of `read_cookie` over the parts of the header.
unfoldable pub find_cookie : Str → List Str → Option Str
find_cookie name [] = none
find_cookie name (part ∷ parts) =
    let rest = find_cookie name parts in
    elim (split_once (trim part) (codes "=")) [
      | none ↦ rest
      | some (k, v) ↦ if str_eq (trim k) name then some (trim v) else rest
    ]

unfoldable pub read_cookie : Headers → Str → Option Str
unfolding find_cookie split
read_cookie headers name =
    and_then (headers (codes "cookie")) (λ header. find_cookie name (split (λ c. c == b';') header))

abbrev pub session_cookie : Str
session_cookie = codes "soika_session"

-- The emails that the environment makes owners, in lower case.
abbrev pub AdminUsers : Type 0
AdminUsers = List Str

unfoldable pub contains : AdminUsers → Str → Bool
contains admin_users email = any (str_eq (map to_lower (trim email))) admin_users

unfoldable pub effective_role : AdminUsers → Str → InstanceRole → InstanceRole
unfolding contains
effective_role admin_users email stored = if contains admin_users email then owner else stored

unfoldable pub apply : AdminUsers → User → User
unfolding effective_role
apply admin_users user = record user {
  instance_role = effective_role admin_users user.email user.instance_role;
}

abbrev pub is_pending : UserStatus → Bool
is_pending active = false
is_pending pending = true

-- What the policy reads: the signature check, the accounts, the environment's owners, and whether
-- single sign-on is configured.
pub record State : Type 0 where
  pub verify_str : Str → Option Str
  pub find_user : Uuid → Result Error (Option User)
  pub admin_users : AdminUsers
  pub has_oidc : Bool

unfoldable pub session_id_from_headers : State → Headers → Option Str
unfolding read_cookie
session_id_from_headers state headers =
    and_then (read_cookie headers session_cookie) state.verify_str

-- The end of `authenticate_user`, on the account.
unfoldable pub admit_user : State → User → Result Error User
unfolding apply session_allowed_with_sso
admit_user state user =
    if is_pending user.status
    then err (auth (codes "account is awaiting approval"))
    else if state.has_oidc && not (session_allowed_with_sso (apply state.admin_users user))
    then err (auth (codes "sign in with SSO"))
    else ok (apply state.admin_users user)

unfoldable pub authenticate_user : State → Headers → Timestamp → Sessions → Result Error User
unfolding session_id_from_headers find admit_user
authenticate_user state headers now sessions =
    ok_or (session_id_from_headers state headers) (auth (codes "missing or invalid session"))
    >>= λ id.
        ok_or (find now id sessions) (auth (codes "session not found or expired")) >>= λ session.
        state.find_user session.user_id >>= λ found.
        ok_or found (auth (codes "user no longer exists")) >>= λ user. admit_user state user

unfoldable pub start_session : Str → Uuid → Timestamp → Sessions → Sessions
unfolding create
start_session session_id user_id now sessions =
    create session_id user_id now (now + session_ttl) sessions

unfoldable pub end_session : State → Headers → Sessions → Sessions
unfolding session_id_from_headers delete
end_session state headers sessions = elim (session_id_from_headers state headers) [
  | none ↦ sessions
  | some session_id ↦ delete session_id sessions
]
