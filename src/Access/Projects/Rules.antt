-- ===== src/Access/Projects/Rules.antt =====
-- src/api/projects.rs: who passes the project gates.
use soika.Base.{◌≡◌, ◌↔◌, ◌⊎◌, inl, inr, refl, true, false, none, some, Bool-cases}
use soika.Base.Text.{Str}
use soika.Base.Result.{ok, Result-cases}
use soika.Errors.{Error}
use soika.Issues.Types.{Uuid}
use soika.Access.Role.{Role}
use soika.Access.TeamRole.{TeamRole}
use soika.Access.User.{User, can_manage_instance}
use soika.Access.Projects.{
  Project, AppState, resolve_role, effective_role, require_member, require_admin,
}

-- The role that the caller holds in the team that owns the project.
abbrev pub Holds : AppState → User → Uuid → TeamRole → Type 0
Holds state user project_id role =
    (project : Project) × (state.find_by_id project_id ≡ ok (some project))
    × (state.member_role project.team_id user.id ≡ ok (some role))

abbrev pub granted : TeamRole → Role
granted TeamRole.admin = Role.admin
granted TeamRole.contributor = Role.member

module _ (show : Error → Str) (state : AppState) (user : User) (project_id : Uuid) where
  outsider :
      (role : Role)
      → can_manage_instance user.instance_role ≡ false
      → (require_member show state user project_id ≡ ok role)
        ↔ ((t : TeamRole) × Holds state user project_id t × (role ≡ granted t))
  unfolding require_member effective_role resolve_role
  outsider role plain = elim (Result-cases (state.find_by_id project_id)) [
    | inl (x, e) ↦ (λ h. let no = rw (plain, e) at h in cc, λ (t, (project, f, m), q). cc)
    | inr (none, e) ↦ (λ h. let no = rw (plain, e) at h in cc, λ (t, (project, f, m), q). cc)
    | inr (some project, e) ↦ elim (Result-cases (state.member_role project.team_id user.id)) [
      | inl (x, m) ↦ (λ h. let no = rw (plain, e, m) at h in cc, λ (t, (other, f, n), q). cc)
      | inr (none, m) ↦ (λ h. let no = rw (plain, e, m) at h in cc, λ (t, (other, f, n), q). cc)
      | inr (some TeamRole.admin, m) ↦ (
        λ h. let got = rw (plain, e, m) at h in (TeamRole.admin, (project, e, m), cc),
        λ (t, (other, f, n), q). rw (require_member, plain, e, m) cc,
      )
      | inr (some TeamRole.contributor, m) ↦ (
        λ h. let got = rw (plain, e, m) at h in (TeamRole.contributor, (project, e, m), cc),
        λ (t, (other, f, n), q). rw (require_member, plain, e, m) cc,
      )
    ]
  ]

  -- A user is let in to a project, with a role, just when the user manages the instance, with the
  -- role of an admin, or holds a role in the team that owns the project, with the matching role.
  pub require_member-grants :
      (role : Role)
      → (require_member show state user project_id ≡ ok role) ↔ (
          ((can_manage_instance user.instance_role ≡ true) × (role ≡ Role.admin))
          ⊎ ((can_manage_instance user.instance_role ≡ false)
              × ((t : TeamRole) × Holds state user project_id t × (role ≡ granted t))))
  unfolding require_member effective_role
  require_member-grants role = elim (Bool-cases (can_manage_instance user.instance_role)) [
    | inl manages ↦ (
      λ h. let got = rw manages at h in inl (manages, cc),
      λ h. elim h [ inl (y, q) ↦ rw (require_member, manages, q) | inr (y, q) ↦ cc ],
    )
    | inr plain ↦
        let (there, back) = outsider role plain in
        (λ h. inr (plain, there h), λ h. elim h [ inl (y, q) ↦ cc | inr (y, q) ↦ back q ])
  ]

  gate-admin :
      (require_admin show state user project_id ≡ ok tt)
      ↔ (require_member show state user project_id ≡ ok Role.admin)
  unfolding require_admin
  gate-admin = elim (Result-cases (require_member show state user project_id)) [
    | inl (x, e) ↦ (λ h. let no = rw e at h in cc, λ h. cc)
    | inr (Role.admin, e) ↦ (λ h. e, λ h. rw (require_admin, e))
    | inr (Role.member, e) ↦ (λ h. let no = rw e at h in cc, λ h. cc)
  ]

  admin-Holds :
      (t : TeamRole)
      → Role.admin ≡ granted t
      → Holds state user project_id t
      → Holds state user project_id TeamRole.admin
  admin-Holds TeamRole.admin q h = h
  admin-Holds TeamRole.contributor q h = cc

  -- The admin gate of a project opens just for the managers of the instance and the admins of the
  -- team that owns the project.
  pub require_admin-grants : (require_admin show state user project_id ≡ ok tt) ↔ (
      (can_manage_instance user.instance_role ≡ true) ⊎ Holds state user project_id TeamRole.admin)
  require_admin-grants =
      let (there, back) = require_member-grants Role.admin in
      let (inward, outward) = gate-admin in
      (
        λ h. elim (there (inward h)) [
          | inl (manages, q) ↦ inl manages
          | inr (plain, (t, held, q)) ↦ inr (admin-Holds t q held)
        ],
        λ h. outward (
            back (elim h [
              | inl manages ↦ inl (manages, refl)
              | inr held ↦ elim (Bool-cases (can_manage_instance user.instance_role)) [
                | inl manages ↦ inl (manages, refl)
                | inr plain ↦ inr (plain, (TeamRole.admin, held, refl))
              ]
            ])),
      )
