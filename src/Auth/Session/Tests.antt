-- ===== src/Auth/Session/Tests.antt =====
-- A session of an account that the environment makes an owner, and the theorems at it.
use soika.Base.{◌≡◌, ◌≢◌, refl, arith, true, none, some, [], ◌∷◌, if◌then◌else◌}
use soika.Base.Text.{codes, str_eq, split_once, starts_with, trim, trim_by, trim_start_by}
use soika.Base.Result.{ok}
use soika.Access.User.{User, local, active, owner, is_owner, session_allowed_with_sso}
use soika.Access.User
use soika.Ingest.Request.{Headers, split}
use soika.Auth.Session.{
  Sessions, State, find, find_cookie, read_cookie, contains, effective_role, apply,
  session_id_from_headers, admit_user, authenticate_user, start_session, end_session,
  delete_expired, create,
}
use soika.Auth.Session.Expiry.{authenticate_user-delete_expired}
use soika.Auth.Session.Who.{IsLoggedIn, authenticate_user-IsLoggedIn, authenticate_user-end_session}

abbrev account : User
account = record {
  id = 7;
  email = codes "Ann@x.org";
  display_name = [];
  password_hash = [];
  instance_role = User.member;
  notifications_enabled = true;
  locale = none;
  auth_provider = local;
  status = active;
  created_at = 1;
  updated_at = 1;
}

abbrev state : State
state = record {
  verify_str = λ raw. some raw;
  find_user = λ id. ok (some account);
  admin_users = codes "ann@x.org" ∷ [];
  has_oidc = true;
}

abbrev headers : Headers
headers name =
    if str_eq name (codes "cookie") then some (codes "theme=dark; soika_session=s1") else none

abbrev sessions : Sessions
sessions = start_session (codes "s1") 7 100 (λ id. none)

abbrev ann : User
ann = record account { instance_role = owner }

known : authenticate_user state headers 200 sessions ≡ ok ann
unfolding authenticate_user session_id_from_headers read_cookie find_cookie split split_once
    starts_with str_eq trim trim_by trim_start_by find admit_user apply effective_role contains
    session_allowed_with_sso is_owner start_session create
known = refl

authenticate_user-IsLoggedIn_example : IsLoggedIn state headers 200 sessions ann
authenticate_user-IsLoggedIn_example =
    authenticate_user-IsLoggedIn state headers 200 sessions ann known

authenticate_user-delete_expired_example :
    authenticate_user state headers 200 (delete_expired 150 sessions)
    ≡ authenticate_user state headers 200 sessions
authenticate_user-delete_expired_example =
    authenticate_user-delete_expired state headers 150 200 sessions (omega arith)

authenticate_user-end_session_example :
    authenticate_user state headers 200 (end_session state headers sessions) ≢ ok ann
authenticate_user-end_session_example = authenticate_user-end_session state headers 200 sessions ann
