-- ===== src/Access/Teams.antt =====
-- src/api/teams.rs: the handlers that change who is in a team. A handler's answer is the table after
-- it, which the source reads into a view; an error text leaves out the id that the source formats
-- into it; a member always has an account, by the table's foreign key. Reading a UUID belongs to the
-- library `uuid`.
pub mod Gate
use soika.Base.{
  ℕ, Bool, true, false, not, ◌&&◌, Option, none, some, List, [], ◌∷◌, ◌++◌, if◌then◌else◌, ltb, leb,
  ◌==◌, any, filter, map, length,
}
use soika.Base.Text.{Str, codes, str_eq}
use soika.Base.Result.{Result, ok, err, ok_or, ◌>>=◌}
use soika.Errors.{Error, not_found, validation, forbidden, conflict}
use soika.Issues.Types.{Uuid, Timestamp}
use soika.Access.TeamRole.{TeamRole, contributor, admin, is_admin}
use soika.Access.Members.{TeamMember, member_role, first}
use soika.Access.Members
use soika.Access.User.{User, can_manage_instance}

pub record Team : Type 0 where
  pub id : Uuid
  pub short_id : Str
  pub name : Str
  pub created_at : Timestamp
  pub updated_at : Timestamp
  pub orphaned_at : Option Timestamp

-- The tables that the handlers read and write, and whether the configuration file owns the teams.
pub record Directory : Type 0 where
  pub yaml_teams : Bool
  pub users : List User
  pub teams : List Team
  pub team_members : List TeamMember

-- The part of a handler before its own checks: `parse_str` reads a UUID.
module _ (parse_str : Str → Option Uuid) where
  unfoldable pub parse_id : Str → Result Error Uuid
  parse_id raw = ok_or (parse_str raw) (validation (codes "invalid id: " ++ raw))

  unfoldable pub resolve_team : Directory → Str → Result Error Team
  resolve_team d raw =
      let found = elim (parse_str raw) as (λ o. Option Team) [
        | some id ↦ first (λ t. t.id == id) d.teams
        | none ↦ first (λ t. str_eq t.short_id raw) d.teams
      ] in
      ok_or found (not_found (codes "team " ++ raw))

unfoldable pub require_ui_management : Directory → Result Error (Unit {0})
require_ui_management d =
    if d.yaml_teams
    then err (forbidden (codes "teams are managed by the configuration file"))
    else ok tt

unfoldable pub require_team_manager : Directory → User → Uuid → Result Error (Unit {0})
unfolding can_manage_instance member_role
require_team_manager d user team_id =
    if can_manage_instance user.instance_role
    then ok tt
    else elim (member_role team_id user.id d.team_members) [
      | some admin ↦ ok tt
      | some contributor ↦ err (forbidden (codes "requires team admin (or instance manager/owner)"))
      | none ↦ err (forbidden (codes "requires team admin (or instance manager/owner)"))
    ]

-- `members(id)` joined with the users, of which the handlers read the ids and the roles.
abbrev pub members : Uuid → List TeamMember → List TeamMember
members team_id rows = filter (λ m. m.team_id == team_id) rows

-- `find_by_id`, with the error of a handler for a team that is gone.
unfoldable pub find_by_id : Directory → Uuid → Result Error Team
find_by_id d id = ok_or (first (λ t. t.id == id) d.teams) (not_found (codes "team"))

-- What the bodies of the handlers ask for.
pub data Request : Type 0 where
  add : (user_id : Uuid) (role : Option TeamRole) → Request
  set_role : (user_id : Str) (role : TeamRole) → Request
  remove : (user_id : Str) → Request

abbrev count_admins : List TeamMember → ℕ
count_admins ms = length (filter (λ m. is_admin m.role) ms)

module _ (parse_str : Str → Option Uuid) where
  unfoldable pub add_member :
      User → Str → Uuid → Option TeamRole → Timestamp → Directory → Result Error (List TeamMember)
  unfolding require_ui_management resolve_team require_team_manager find_by_id
  add_member caller raw user_id role now d = require_ui_management d >>= (λ managed.
      resolve_team parse_str d raw >>= λ team. require_team_manager d caller team.id >>= λ allowed.
      find_by_id d team.id >>= λ found.
      if any (λ u. u.id == user_id) d.users
      then Members.add_member team.id user_id (elim role [ none ↦ contributor | some r ↦ r ]) now
          d.team_members
      else err (not_found (codes "user")))

  unfoldable pub set_member_role :
      User → Str → Str → TeamRole → Directory → Result Error (List TeamMember)
  unfolding require_ui_management resolve_team parse_id require_team_manager find_by_id
  set_member_role caller raw raw_user role d = require_ui_management d >>= (λ managed.
      resolve_team parse_str d raw >>= λ team. parse_id parse_str raw_user >>= λ user_id.
      require_team_manager d caller team.id >>= λ allowed. find_by_id d team.id >>= λ found.
      let ms = members team.id d.team_members in
      elim (first (λ m. m.user_id == user_id) ms) [
        | none ↦ err (not_found (codes "member not found in team"))
        | some current ↦
            if is_admin current.role && not (is_admin role) && leb (count_admins ms) 1
            then err (conflict (codes "cannot demote the last admin of the team"))
            else Members.set_member_role team.id user_id role d.team_members
      ])

  unfoldable pub remove_member : User → Str → Str → Directory → Result Error (List TeamMember)
  unfolding require_ui_management resolve_team parse_id require_team_manager
  remove_member caller raw raw_user d = require_ui_management d >>= (λ managed.
      resolve_team parse_str d raw >>= λ team. parse_id parse_str raw_user >>= λ user_id.
      require_team_manager d caller team.id >>= λ allowed.
      let ms = members team.id d.team_members in
      let last : Bool = elim (first (λ m. m.user_id == user_id) ms) [
        | none ↦ false
        | some current ↦ is_admin current.role && leb (count_admins ms) 1
      ] in
      if last
      then err (conflict (codes "cannot remove the last admin of the team"))
      else Members.remove_member team.id user_id d.team_members)

  -- One request, and the directory after it.
  unfoldable pub handle : User → Str → Timestamp → Request → Directory → Result Error Directory
  unfolding add_member set_member_role remove_member
  handle caller raw now request d =
      elim request as (λ r. Result Error (List TeamMember)) [
        | add user_id role ↦ add_member caller raw user_id role now d
        | set_role raw_user role ↦ set_member_role caller raw raw_user role d
        | remove raw_user ↦ remove_member caller raw raw_user d
      ]
      >>= λ rows. ok (record d { team_members = rows })
