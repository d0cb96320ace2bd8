-- ===== src/Access/Teams/Gate.antt =====
-- src/api/teams.rs: who may change a team, and its admins after a request.
use soika.Base.{
  ◌≡◌, ◌⊎◌, inl, inr, arith, true, false, Option, some, List, ◌==◌, any, Bool-cases, Option-cases,
}
use soika.Base.Text.{Str}
use soika.Base.Result.{Result, ok, err, ◌>>=◌, Ok, bind-Ok}
use soika.Errors.{Error}
use soika.Issues.Types.{Uuid, Timestamp}
use soika.Access.TeamRole.{TeamRole, admin, contributor}
use soika.Access.User.{User, can_manage_instance}
use soika.Access.Members.{TeamMember, member_role}
use soika.Access.Members.Admins.{
  has_admin, KeepsAdmin, add_member-KeepsAdmin, set_member_role-KeepsAdmin,
  remove_member-KeepsAdmin,
}
use soika.Access.Teams.{
  Team, Directory, Request, add, set_role, remove, resolve_team, require_team_manager, add_member,
  set_member_role, remove_member, handle, require_ui_management, parse_id, find_by_id,
}

module _ (parse_str : Str → Option Uuid) (caller : User) (raw : Str) (d : Directory) where
  -- That the teams are not the configuration file's, and that the caller manages the instance or is
  -- an admin of the team that the path names.
  abbrev pub IsAllowed : Type 0
  IsAllowed =
      (d.yaml_teams ≡ false)
      × ((t : Team) × (resolve_team parse_str d raw ≡ ok t)
          × ((can_manage_instance caller.instance_role ≡ true)
              ⊎ (member_role t.id caller.id d.team_members ≡ some admin)))

  unmanaged : (u : Unit {0}) → require_ui_management d ≡ ok u → d.yaml_teams ≡ false
  unfolding require_ui_management
  unmanaged u h = ground arith

  manager :
      (id : Uuid) (u : Unit {0})
      → require_team_manager d caller id ≡ ok u
      → (can_manage_instance caller.instance_role ≡ true)
        ⊎ (member_role id caller.id d.team_members ≡ some admin)
  unfolding require_team_manager
  manager id u h = elim (Bool-cases (can_manage_instance caller.instance_role)) [
    | inl yes_all ↦ inl yes_all
    | inr plain ↦ elim (Option-cases (member_role id caller.id d.team_members)) [
      | inl e ↦ let no = rw (plain, e) at h in cc
      | inr (admin, e) ↦ inr e
      | inr (contributor, e) ↦ let no = rw (plain, e) at h in cc
    ]
  ]

  -- What a request that succeeds shows: the caller was permitted, and a team with an admin has one.
  abbrev pub Permitted : List TeamMember → Type 0
  Permitted rows =
      IsAllowed × ((s : Uuid) → has_admin s d.team_members ≡ true → has_admin s rows ≡ true)

  collect :
      (r : Result Error (List TeamMember))
      → IsAllowed
      → ((s : Uuid) → has_admin s d.team_members ≡ true → KeepsAdmin s r)
      → Ok Permitted r
  collect (ok rows) allowed h = (allowed, h)
  collect (err e) allowed h = tt

  allow :
      (managed : Unit {0}) (t : Team) (passed : Unit {0})
      → require_ui_management d ≡ ok managed
      → resolve_team parse_str d raw ≡ ok t
      → require_team_manager d caller t.id ≡ ok passed
      → IsAllowed
  allow managed t passed e q g = (unmanaged managed e, (t, q, manager t.id passed g))

  add_member-Permitted :
      (user_id : Uuid) (role : Option TeamRole) (now : Timestamp)
      → Ok Permitted (add_member parse_str caller raw user_id role now d)
  unfolding add_member
  add_member-Permitted user_id role now = bind-Ok _ (require_ui_management d) _ λ managed e.
      bind-Ok _ (resolve_team parse_str d raw) _ λ t q.
        bind-Ok _ (require_team_manager d caller t.id) _ λ passed g.
          bind-Ok _ (find_by_id d t.id) _ λ found w.
            elim (Bool-cases (any (λ u. u.id == user_id) d.users)) [
              | inr gone ↦ rw gone tt
              | inl there ↦ rw there (
                  collect _ (allow managed t passed e q g)
                    λ s h. add_member-KeepsAdmin s t.id user_id _ now d.team_members h)
            ]

  set_member_role-Permitted :
      (raw_user : Str) (role : TeamRole)
      → Ok Permitted (set_member_role parse_str caller raw raw_user role d)
  unfolding set_member_role
  set_member_role-Permitted raw_user role = bind-Ok _ (require_ui_management d) _ λ managed e.
      bind-Ok _ (resolve_team parse_str d raw) _ λ t q.
        bind-Ok _ (parse_id parse_str raw_user) _ λ user_id p.
          bind-Ok _ (require_team_manager d caller t.id) _ λ passed g.
            bind-Ok _ (find_by_id d t.id) _ λ found w.
              let keep =
                collect _ (allow managed t passed e q g)
                  λ s h. set_member_role-KeepsAdmin s t.id user_id role d.team_members h in
              ground (arith, keep)

  remove_member-Permitted :
      (raw_user : Str) → Ok Permitted (remove_member parse_str caller raw raw_user d)
  unfolding remove_member
  remove_member-Permitted raw_user = bind-Ok _ (require_ui_management d) _ λ managed e.
      bind-Ok _ (resolve_team parse_str d raw) _ λ t q.
        bind-Ok _ (parse_id parse_str raw_user) _ λ user_id p.
          bind-Ok _ (require_team_manager d caller t.id) _ λ passed g.
            let keep =
              collect _ (allow managed t passed e q g)
                λ s h. remove_member-KeepsAdmin s t.id user_id d.team_members h in
            ground (arith, keep)

  store :
      (r : Result Error (List TeamMember))
      → Ok Permitted r
      → Ok
          (λ (d' : Directory). Permitted d'.team_members)
          (r >>= λ rows. ok (record d { team_members = rows }))
  store (ok rows) h = h
  store (err e) h = tt

  -- A request that changes a team succeeds only if the configuration file does not own the teams and
  -- the caller manages the instance or is an admin of that team. After it every team that had an
  -- admin has one.
  pub handle-Permitted :
      (now : Timestamp) (request : Request)
      → Ok
          (λ (d' : Directory). Permitted d'.team_members)
          (handle parse_str caller raw now request d)
  unfolding handle
  handle-Permitted now (add user_id role) = store _ (add_member-Permitted user_id role now)
  handle-Permitted now (set_role raw_user role) = store _ (set_member_role-Permitted raw_user role)
  handle-Permitted now (remove raw_user) = store _ (remove_member-Permitted raw_user)
