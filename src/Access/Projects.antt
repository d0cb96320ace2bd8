-- ===== src/Access/Projects.antt =====
-- src/api/projects.rs: how a project is found and who may act on it. The repositories are an
-- interface, whose calls can fail.
pub mod Rules
use soika.Base.{ℕ, Bool, true, false, Option, none, some, List, ◌∷◌, ◌++◌, if◌then◌else◌, leb}
use soika.Base.Int.{ℤ}
use soika.Base.Text.{Str, codes}
use soika.Base.Result.{Result, ok, err, ok_or, ◌>>=◌}
use soika.Errors.{
  Error, not_found, validation, auth, forbidden, conflict, rate_limited, db, db_busy, serde, mail,
  template, internal, alertmanager,
}
use soika.Issues.Types.{Uuid, Timestamp}
use soika.Access.Role.{Role}
use soika.Access.Role
use soika.Access.TeamRole.{TeamRole}
use soika.Access.TeamRole
use soika.Access.User.{User, InstanceRole, can_manage_instance, is_owner}

pub record Project : Type 0 where
  pub id : Uuid
  pub short_id : Str
  pub team_id : Uuid
  pub name : Str
  pub slug : Str
  pub dsn_public_key : Str
  pub retention_events : ℤ
  pub retention_days : ℤ
  pub muted : Bool
  pub webhook_url : Option Str
  pub created_at : Timestamp
  pub updated_at : Timestamp
  pub orphaned_at : Option Timestamp

-- What the rules call of the repositories of projects and teams.
pub record AppState : Type 0 where
  pub find_by_id : Uuid → Result Error (Option Project)
  pub find_by_slug : Str → Result Error (Option Project)
  pub find_by_short_id : Str → Result Error (Option Project)
  pub member_role : Uuid → Uuid → Result Error (Option TeamRole)

-- A JSON error: the status and the text.
pub record Response : Type 0 where
  pub status : ℕ
  pub error : Str

abbrev pub json_error : ℕ → Str → Response
json_error status message = record { status = status; error = message }

unfoldable pub status_of : Error → ℕ
status_of (not_found m) = 404
status_of (validation m) = 400
status_of (serde m) = 400
status_of (auth m) = 401
status_of (forbidden m) = 403
status_of (conflict m) = 409
status_of rate_limited = 429
status_of (db_busy what e) = 503
status_of (db e) = 500
status_of (mail m) = 500
status_of (template m) = 500
status_of (internal m) = 500
status_of (alertmanager m) = 500

-- `show` is the error's own text, which the library `thiserror` derives.
unfoldable pub error_response : (Error → Str) → Error → Response
unfolding status_of
error_response show e =
    json_error (status_of e)
      (if leb 500 (status_of e) then codes "internal server error" else show e)

-- `map_err(error_response)`.
abbrev pub respond {ℓ} : {A : Type ℓ} → (Error → Str) → Result Error A → Result Response A
respond show (ok a) = ok a
respond show (err e) = err (error_response show e)

unfoldable pub resolve_project : (Error → Str) → AppState → Str → Result Response Project
resolve_project show state public_id = respond show (state.find_by_slug public_id) >>= λ found.
    elim found [
      | some project ↦ ok project
      | none ↦ respond show (state.find_by_short_id public_id) >>= λ other.
          ok_or other (json_error 404 (codes "project not found"))
    ]

unfoldable pub resolve_role : InstanceRole → Option TeamRole → Option Role
unfolding can_manage_instance
resolve_role instance_role team_role =
    if can_manage_instance instance_role then some Role.admin else elim team_role [
      | none ↦ none
      | some TeamRole.admin ↦ some Role.admin
      | some TeamRole.contributor ↦ some Role.member
    ]

unfoldable pub effective_role :
    (Error → Str) → AppState → User → Uuid → Result Response (Option Role)
unfolding resolve_role can_manage_instance
effective_role show state user project_id =
    if can_manage_instance user.instance_role
    then ok (some Role.admin)
    else (respond show (state.find_by_id project_id) >>= λ found. elim found [
      | none ↦ ok none
      | some project ↦ respond show (state.member_role project.team_id user.id) >>= λ team_role.
          ok (resolve_role user.instance_role team_role)
    ])

unfoldable pub require_member : (Error → Str) → AppState → User → Uuid → Result Response Role
unfolding effective_role
require_member show state user project_id = effective_role show state user project_id >>= λ role.
    ok_or role (json_error 403 (codes "you do not have access to this project"))

unfoldable pub require_admin : (Error → Str) → AppState → User → Uuid → Result Response (Unit {0})
unfolding require_member
require_admin show state user project_id = require_member show state user project_id >>= λ role.
    elim role [
      | Role.admin ↦ ok tt
      | Role.member ↦ err (json_error 403 (codes "admin role required for this action"))
    ]

unfoldable pub require_manager : User → Result Response (Unit {0})
unfolding can_manage_instance
require_manager user =
    if can_manage_instance user.instance_role
    then ok tt
    else err (json_error 403 (codes "requires instance manager or owner"))

unfoldable pub require_owner : User → Result Response (Unit {0})
unfolding is_owner
require_owner user =
    if is_owner user.instance_role
    then ok tt
    else err (json_error 403 (codes "requires instance owner"))
