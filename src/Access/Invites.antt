-- ===== src/Access/Invites.antt =====
-- src/adapters/sqlite/invite.rs: the table of invites and the acceptance of one, which is a single
-- transaction with the table of team members. Tokens are unique, so the table is a function of them.
pub mod Join
pub mod Acceptable
pub mod Accepted
mod Tests
use soika.Base.{
  ℕ, ◌+◌, ◌*◌, Bool, true, false, not, ◌&&◌, ◌||◌, Option, none, some, List, [], ◌∷◌, ◌++◌,
  if◌then◌else◌, ltb, map, any,
}
use soika.Base.Text.{Str, codes, str_eq, eq_ignore_ascii_case}
use soika.Base.Time.{from_secs}
use soika.Base.Result.{Result, ok, err}
use soika.Errors.{Error, auth, forbidden}
use soika.Issues.Types.{Uuid, Timestamp}
use soika.Access.TeamRole.{TeamRole, is_admin}
use soika.Access.User.{User, UserStatus, active, pending}
use soika.Access.Members.{TeamMember, is_row}

pub record Invite : Type 0 where
  pub token : Str
  pub team_id : Uuid
  pub role : TeamRole
  pub email : Option Str
  pub created_by : Option Uuid
  pub created_at : Timestamp
  pub expires_at : Timestamp
  pub accepted_at : Option Timestamp

pub record NewInvite : Type 0 where
  pub token : Str
  pub team_id : Uuid
  pub role : TeamRole
  pub email : Option Str
  pub created_by : Option Uuid
  pub expires_at : Timestamp

-- The two tables of a transaction.
pub record Tables : Type 0 where
  pub invites : Str → Option Invite
  pub team_members : List TeamMember

abbrev pub put : Str → Option Invite → (Str → Option Invite) → Str → Option Invite
put token row rows t = if str_eq t token then row else rows t

unfoldable pub create : NewInvite → Timestamp → Tables → Tables × Invite
create new now t =
    let invite : Invite = record {
      token = new.token;
      team_id = new.team_id;
      role = new.role;
      email = new.email;
      created_by = new.created_by;
      created_at = now;
      expires_at = new.expires_at;
      accepted_at = none;
    } in
    (record t { invites = put new.token (some invite) t.invites }, invite)

unfoldable pub find_by_token : Str → Tables → Option Invite
find_by_token token t = t.invites token

unfoldable pub delete : Str → Tables → Tables
delete token t = record t { invites = put token none t.invites }

abbrev pub is_none {ℓ} : {A : Type ℓ} → Option A → Bool
is_none none = true
is_none (some a) = false

-- `accepted_at IS NULL AND expires_at > ?`.
unfoldable pub is_open : Timestamp → Invite → Bool
is_open now invite = is_none invite.accepted_at && ltb now invite.expires_at

-- The row that the first statement of `accept` changes, as it was.
abbrev pub open_invite : Timestamp → Option Invite → Option Invite
open_invite now none = none
open_invite now (some invite) = if is_open now invite then some invite else none

abbrev pub is_active : UserStatus → Bool
is_active active = true
is_active pending = false

abbrev pub is_for : Option Str → Str → Bool
is_for none email = true
is_for (some target) email = eq_ignore_ascii_case target email

unfoldable pub is_available : Invite → User → Bool
is_available invite user = is_active user.status && is_for invite.email user.email

-- The role on a conflict: an admin stays one.
abbrev pub role_on_conflict : TeamRole → TeamRole → TeamRole
role_on_conflict old role = if is_admin old then old else role

-- `INSERT … ON CONFLICT (team_id, user_id) DO UPDATE`.
unfoldable pub join_team : Uuid → Uuid → TeamRole → Timestamp → List TeamMember → List TeamMember
join_team team_id user_id role now rows =
    if any (is_row team_id user_id) rows
    then map
        (λ m.
          if is_row team_id user_id m then record m { role = role_on_conflict m.role role } else m)
        rows
    else rows
      ++ (record { team_id = team_id; user_id = user_id; role = role; created_at = now } ∷ [])

unfoldable pub accepted : Str → Invite → Uuid → Timestamp → Tables → Tables
unfolding join_team
accepted token invite user_id now t = record {
  invites = put token (some (record invite { accepted_at = some now })) t.invites;
  team_members = join_team invite.team_id user_id invite.role now t.team_members;
}

-- A transaction that fails is rolled back.
unfoldable pub accept :
    (Uuid → Option User) → Str → Uuid → Timestamp → Tables → Tables × Result Error (Unit {0})
unfolding is_open is_available accepted
accept users token user_id now t = elim (open_invite now (t.invites token)) [
  | none ↦ (t, err (auth (codes "invite expired or already used")))
  | some invite ↦ elim (users user_id) [
    | none ↦ (t, err (auth (codes "user no longer exists")))
    | some user ↦
        if not (is_available invite user)
        then (t, err (forbidden (codes "invite is not available to this account")))
        else (accepted token invite user_id now t, ok tt)
  ]
]
