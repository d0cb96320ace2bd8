-- ===== src/Access/Members/Admins.antt =====
-- src/adapters/sqlite/team.rs: the admins of a team before and after a statement.
use soika.Base.{
  ◌≡◌, ◌≢◌, inl, inr, refl, ◌∙◌, arith, Bool, true, false, not, ◌&&◌, ◌||◌, List, [], ◌∷◌, ◌++◌,
  ◌==◌, any, filter, Bool-cases,
}
use soika.Base.Result.{Result, ok, Result-cases, Ok}
use soika.Errors.{Error}
use soika.Issues.Types.{Uuid, Timestamp}
use soika.Access.TeamRole.{TeamRole, admin, contributor, is_admin}
use soika.Access.Members.{
  TeamMember, is_row, other_admin, is_last_admin, require_another_admin, update_role, add_member,
  set_member_role, remove_member, guard,
}

-- Whether a team has an admin.
unfoldable pub has_admin : Uuid → List TeamMember → Bool
has_admin team_id rows = any (λ m. (m.team_id == team_id) && is_admin m.role) rows

-- An admin who is not the user outlives whatever becomes of the user's row.
others-update :
    (t u : Uuid) (role : TeamRole) (rows : List TeamMember)
    → any (other_admin t u) rows ≡ true
    → has_admin t (update_role t u role rows) ≡ true
unfolding has_admin update_role
others-update t u role [] h = cc
others-update t u role (m ∷ rows) h = ground (arith, others-update t u role rows)

others-filter :
    (t u : Uuid) (rows : List TeamMember)
    → any (other_admin t u) rows ≡ true
    → has_admin t (filter (λ m. not (is_row t u m)) rows) ≡ true
unfolding has_admin
others-filter t u [] h = cc
others-filter t u (m ∷ rows) h = ground (arith, others-filter t u rows)

admin_split :
    (t u : Uuid) (rows : List TeamMember)
    → has_admin t rows ≡ true
    → any (λ m. is_row t u m && is_admin m.role) rows || any (other_admin t u) rows ≡ true
unfolding has_admin
admin_split t u [] h = cc
admin_split t u (m ∷ rows) h = ground (arith, admin_split t u rows)

others-exist :
    (t u : Uuid) (rows : List TeamMember)
    → has_admin t rows ≡ true
    → is_last_admin t u rows ≡ false
    → any (other_admin t u) rows ≡ true
unfolding is_last_admin
others-exist t u rows h k =
    let split = admin_split t u rows h in
    elim (Bool-cases (any (other_admin t u) rows)) [ inl e ↦ e | inr e ↦ ground (arith, e) ]

-- The rows of the other teams stay.
elsewhere-update :
    (s t u : Uuid) (role : TeamRole) (rows : List TeamMember)
    → s ≢ t
    → has_admin s (update_role t u role rows) ≡ has_admin s rows
unfolding has_admin update_role
elsewhere-update s t u role [] ne = refl
elsewhere-update s t u role (m ∷ rows) ne = ground (arith, elsewhere-update s t u role rows ne)

elsewhere-filter :
    (s t u : Uuid) (rows : List TeamMember)
    → s ≢ t
    → has_admin s (filter (λ m. not (is_row t u m)) rows) ≡ has_admin s rows
unfolding has_admin
elsewhere-filter s t u [] ne = refl
elsewhere-filter s t u (m ∷ rows) ne = ground (arith, elsewhere-filter s t u rows ne)

promoted :
    (s t u : Uuid) (rows : List TeamMember)
    → has_admin s rows ≡ true
    → has_admin s (update_role t u admin rows) ≡ true
unfolding has_admin update_role
promoted s t u [] h = cc
promoted s t u (m ∷ rows) h = ground (arith, promoted s t u rows)

appended :
    (s : Uuid) (rows : List TeamMember) (m : TeamMember)
    → has_admin s rows ≡ true
    → has_admin s (rows ++ (m ∷ [])) ≡ true
unfolding has_admin
appended s [] m h = cc
appended s (r ∷ rows) m h = ground (arith, appended s rows m)

-- With the guard passed, the team has another admin.
another :
    (s t u : Uuid) (rows : List TeamMember)
    → s ≡ t
    → has_admin s rows ≡ true
    → require_another_admin t u rows ≡ ok tt
    → any (other_admin t u) rows ≡ true
unfolding require_another_admin
another s t u rows same h g =
    others-exist t u rows (rw same at h) (elim (Bool-cases (is_last_admin t u rows)) [
      | inl last ↦ let no = rw last at g in cc
      | inr free ↦ free
    ])

demoted :
    (s t u : Uuid) (role : TeamRole) (rows : List TeamMember)
    → has_admin s rows ≡ true
    → guard t u role rows ≡ ok tt
    → has_admin s (update_role t u role rows) ≡ true
demoted s t u admin rows h g = promoted s t u rows h
demoted s t u contributor rows h g = elim (Bool-cases (s == t)) [
  | inr away ↦ elsewhere-update s t u contributor rows (ground arith) ∙ h
  | inl here ↦
      let same : s ≡ t = ground arith in
      rw same (others-update t u contributor rows (another s t u rows same h g))
]

removed :
    (s t u : Uuid) (rows : List TeamMember)
    → has_admin s rows ≡ true
    → require_another_admin t u rows ≡ ok tt
    → has_admin s (filter (λ m. not (is_row t u m)) rows) ≡ true
removed s t u rows h g = elim (Bool-cases (s == t)) [
  | inr away ↦ elsewhere-filter s t u rows (ground arith) ∙ h
  | inl here ↦
      let same : s ≡ t = ground arith in
      rw same (others-filter t u rows (another s t u rows same h g))
]

-- A statement that succeeds leaves the team an admin.
abbrev pub KeepsAdmin : Uuid → Result Error (List TeamMember) → Type 0
KeepsAdmin s r = Ok (λ rows. has_admin s rows ≡ true) r

pub add_member-KeepsAdmin :
    (s t u : Uuid) (role : TeamRole) (now : Timestamp) (rows : List TeamMember)
    → has_admin s rows ≡ true
    → KeepsAdmin s (add_member t u role now rows)
unfolding add_member
add_member-KeepsAdmin s t u role now rows h = elim (Result-cases (guard t u role rows)) [
  | inl (x, g) ↦ rw (g, add_member) tt
  | inr (passed, g) ↦ elim (Bool-cases (any (is_row t u) rows)) [
    | inl old ↦ rw (g, old, add_member) (demoted s t u role rows h g)
    | inr new ↦ rw (g, new, add_member) (appended s rows _ h)
  ]
]

pub set_member_role-KeepsAdmin :
    (s t u : Uuid) (role : TeamRole) (rows : List TeamMember)
    → has_admin s rows ≡ true
    → KeepsAdmin s (set_member_role t u role rows)
unfolding set_member_role
set_member_role-KeepsAdmin s t u role rows h = elim (Result-cases (guard t u role rows)) [
  | inl (x, g) ↦ rw (g, set_member_role) tt
  | inr (passed, g) ↦ elim (Bool-cases (any (is_row t u) rows)) [
    | inl old ↦ rw (g, old, set_member_role) (demoted s t u role rows h g)
    | inr new ↦ rw (g, new, set_member_role) tt
  ]
]

pub remove_member-KeepsAdmin :
    (s t u : Uuid) (rows : List TeamMember)
    → has_admin s rows ≡ true
    → KeepsAdmin s (remove_member t u rows)
unfolding remove_member
remove_member-KeepsAdmin s t u rows h = elim (Result-cases (require_another_admin t u rows)) [
  | inl (x, g) ↦ rw (g, remove_member) tt
  | inr (passed, g) ↦ rw (g, remove_member) (removed s t u rows h g)
]
