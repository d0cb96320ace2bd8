-- ===== src/Access/Invites/Join.antt =====
-- src/adapters/sqlite/invite.rs: the role of a member after the insertion of `accept`.
use soika.Base.{
  ◌≡◌, refl, sym, ap, ◌∙◌, arith, Bool, true, false, ◌||◌, Option, none, some, List, [], ◌∷◌, ◌++◌,
  if◌then◌else◌, map, any, Bool-cases, Option-cases, inl, inr,
}
use soika.Issues.Types.{Uuid, Timestamp}
use soika.Access.TeamRole.{TeamRole}
use soika.Access.Members.{TeamMember, is_row, first, member_role}
use soika.Access.Invites.{role_on_conflict, join_team}

-- The role that a user has after joining.
abbrev pub given_role : Option TeamRole → TeamRole → TeamRole
given_role none role = role
given_role (some old) role = role_on_conflict old role

abbrev role_of : Option TeamMember → Option TeamRole
role_of none = none
role_of (some m) = some m.role

abbrev omap : (TeamMember → TeamMember) → Option TeamMember → Option TeamMember
omap f none = none
omap f (some m) = some (f m)

first-map :
    (p : TeamMember → Bool) (f : TeamMember → TeamMember) (rows : List TeamMember)
    → ((m : TeamMember) → p (f m) ≡ p m)
    → first p (map f rows) ≡ omap f (first p rows)
first-map p f [] h = refl
first-map p f (r ∷ rows) h = elim (Bool-cases (p r)) [
  | inl hit ↦ rw (h r, hit) refl
  | inr miss ↦ rw (h r, miss) (first-map p f rows h)
]

any-first :
    (p : TeamMember → Bool) (rows : List TeamMember)
    → any p rows ≡ true
    → (m : TeamMember) × (first p rows ≡ some m)
any-first p [] h = cc
any-first p (r ∷ rows) h = elim (Bool-cases (p r)) [
  | inl hit ↦ (r, rw hit refl)
  | inr miss ↦
      let (m, e) = any-first p rows (sym (ap (λ b. b || any p rows) miss) ∙ h) in (m, rw miss e)
]

none-first :
    (p : TeamMember → Bool) (rows : List TeamMember) → any p rows ≡ false → first p rows ≡ none
none-first p [] h = refl
none-first p (r ∷ rows) h = ground (arith, none-first p rows)

first-append :
    (p : TeamMember → Bool) (rows : List TeamMember) (m : TeamMember)
    → first p rows ≡ none
    → first p (rows ++ (m ∷ [])) ≡ (if p m then some m else none)
first-append p [] m h = refl
first-append p (r ∷ rows) m h = elim (Bool-cases (p r)) [
  | inl hit ↦
      let no : some r ≡ none = sym (ap (λ b. if b then some r else first p rows) hit) ∙ h in cc
  | inr miss ↦
      rw miss (first-append p rows m (sym (ap (λ b. if b then some r else first p rows) miss) ∙ h))
]

first-is :
    (p : TeamMember → Bool) (rows : List TeamMember) (m : TeamMember)
    → first p rows ≡ some m
    → p m ≡ true
first-is p [] m h = cc
first-is p (r ∷ rows) m h = ground (arith, first-is p rows m)

module _ (team user : Uuid) (role : TeamRole) (now : Timestamp) where
  abbrev promoted : TeamMember → TeamMember
  promoted m = if is_row team user m then record m { role = role_on_conflict m.role role } else m

  same_row :
      (t u : Uuid) (b : Bool) (m : TeamMember)
      → is_row t u (if b then record m { role = role_on_conflict m.role role } else m)
        ≡ is_row t u m
  same_row t u true m = refl
  same_row t u false m = refl

  is_row_self :
      is_row team user (record { team_id = team; user_id = user; role = role; created_at = now })
      ≡ true
  is_row_self = ground arith

  member_role_of :
      (t u : Uuid) (rows : List TeamMember)
      → member_role t u rows ≡ role_of (first (is_row t u) rows)
  unfolding member_role
  member_role_of t u rows = elim (Option-cases (first (is_row t u) rows)) [
    | inl e ↦ rw (e, member_role, role_of) refl
    | inr (m, e) ↦ rw (e, member_role, role_of) refl
  ]

  join_known :
      (rows : List TeamMember)
      → any (is_row team user) rows ≡ true
      → join_team team user role now rows ≡ map promoted rows
  unfolding join_team
  join_known rows there = rw (join_team, there) refl

  join_new :
      (rows : List TeamMember)
      → any (is_row team user) rows ≡ false
      → join_team team user role now rows
        ≡ rows ++ (record { team_id = team; user_id = user; role = role; created_at = now } ∷ [])
  unfolding join_team
  join_new rows new = rw (join_team, new) refl

  promoted_role :
      (b : Bool) (m : TeamMember)
      → b ≡ true
      → role_of (some (if b then record m { role = role_on_conflict m.role role } else m))
        ≡ some (role_on_conflict m.role role)
  promoted_role true m h = refl
  promoted_role false m h = cc

  pub member_role-join_team :
      (rows : List TeamMember)
      → member_role team user (join_team team user role now rows)
        ≡ some (given_role (member_role team user rows) role)
  member_role-join_team rows = elim (Bool-cases (any (is_row team user) rows)) [
    | inl there ↦
        let (m, e) = any-first (is_row team user) rows there in
        ap (member_role team user) (join_known rows there)
        ∙ member_role_of team user (map promoted rows)
        ∙ ap role_of (
            first-map (is_row team user) promoted rows
              (λ m. same_row team user (is_row team user m) m)
            ∙ ap (omap promoted) e)
        ∙ promoted_role (is_row team user m) m (first-is (is_row team user) rows m e)
        ∙ ap (λ o. some (given_role o role)) (sym (member_role_of team user rows ∙ ap role_of e))
    | inr new ↦
        let nobody = none-first (is_row team user) rows new in
        let row : TeamMember = record {
          team_id = team;
          user_id = user;
          role = role;
          created_at = now;
        } in
        ap (member_role team user) (join_new rows new)
        ∙ member_role_of team user (rows ++ (row ∷ []))
        ∙ ap role_of (
            first-append (is_row team user) rows row nobody
            ∙ ap (λ b. if b then some row else none) is_row_self)
        ∙ ap (λ o. some (given_role o role))
            (sym (member_role_of team user rows ∙ ap role_of nobody))
  ]
