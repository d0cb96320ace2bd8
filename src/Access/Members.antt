-- ===== src/Access/Members.antt =====
-- src/adapters/sqlite/team.rs: the table of team members and the statements that change it.
pub mod Admins
use soika.Base.{
  ℕ, Bool, true, false, not, ◌&&◌, Option, none, some, List, [], ◌∷◌, ◌++◌, if◌then◌else◌, ◌==◌,
  any, filter, map,
}
use soika.Base.Text.{Str, codes}
use soika.Base.Result.{Result, ok, err, ◌>>=◌}
use soika.Errors.{Error, not_found, conflict}
use soika.Issues.Types.{Uuid, Timestamp}
use soika.Access.TeamRole.{TeamRole, is_admin}

pub record TeamMember : Type 0 where
  pub team_id : Uuid
  pub user_id : Uuid
  pub role : TeamRole
  pub created_at : Timestamp

abbrev pub first {ℓ} : {A : Type ℓ} → (A → Bool) → List A → Option A
first p [] = none
first p (a ∷ rows) = let rest = first p rows in if p a then some a else rest

abbrev pub is_row : Uuid → Uuid → TeamMember → Bool
is_row team_id user_id m = (m.team_id == team_id) && m.user_id == user_id

-- `member_role`.
unfoldable pub member_role : Uuid → Uuid → List TeamMember → Option TeamRole
member_role team_id user_id rows = elim (first (is_row team_id user_id) rows) [
  | none ↦ none
  | some m ↦ some m.role
]

-- Whether the team has an admin other than the user.
abbrev pub other_admin : Uuid → Uuid → TeamMember → Bool
other_admin team_id user_id m =
    (m.team_id == team_id) && is_admin m.role && not (m.user_id == user_id)

unfoldable pub is_last_admin : Uuid → Uuid → List TeamMember → Bool
is_last_admin team_id user_id rows =
    any (λ m. is_row team_id user_id m && is_admin m.role) rows
    && not (any (other_admin team_id user_id) rows)

unfoldable pub require_another_admin : Uuid → Uuid → List TeamMember → Result Error (Unit {0})
unfolding is_last_admin
require_another_admin team_id user_id rows =
    if is_last_admin team_id user_id rows
    then err (conflict (codes "cannot remove or demote the last admin of the team"))
    else ok tt

-- `UPDATE team_members SET role = ? WHERE team_id = ? AND user_id = ?`.
unfoldable pub update_role : Uuid → Uuid → TeamRole → List TeamMember → List TeamMember
update_role team_id user_id role rows =
    map (λ m. if is_row team_id user_id m then record m { role = role } else m) rows

-- The guard of `add_member` and `set_member_role`: only a role under admin needs it.
abbrev pub guard : Uuid → Uuid → TeamRole → List TeamMember → Result Error (Unit {0})
guard team_id user_id role rows =
    if is_admin role then ok tt else require_another_admin team_id user_id rows

unfoldable pub add_member :
    Uuid → Uuid → TeamRole → Timestamp → List TeamMember → Result Error (List TeamMember)
unfolding require_another_admin update_role
add_member team_id user_id role now rows = guard team_id user_id role rows >>= λ passed.
    let row : TeamMember = record {
      team_id = team_id;
      user_id = user_id;
      role = role;
      created_at = now;
    } in
    if any (is_row team_id user_id) rows
    then ok (update_role team_id user_id role rows)
    else ok (rows ++ (row ∷ []))

unfoldable pub set_member_role :
    Uuid → Uuid → TeamRole → List TeamMember → Result Error (List TeamMember)
unfolding require_another_admin update_role
set_member_role team_id user_id role rows = guard team_id user_id role rows >>= λ passed.
    if any (is_row team_id user_id) rows
    then ok (update_role team_id user_id role rows)
    else err (not_found (codes "team membership not found"))

unfoldable pub remove_member : Uuid → Uuid → List TeamMember → Result Error (List TeamMember)
unfolding require_another_admin
remove_member team_id user_id rows = require_another_admin team_id user_id rows >>= λ passed.
    ok (filter (λ m. not (is_row team_id user_id m)) rows)
