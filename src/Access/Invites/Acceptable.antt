-- ===== src/Access/Invites/Acceptable.antt =====
-- src/adapters/sqlite/invite.rs: when an invite can be accepted.
use soika.Base.{
  ◌↔◌, ltb→lt, &&_true, map, ◌<◌, ◌≡◌, refl, sym, ap, ◌∙◌, arith, Bool, true, false, Option, none,
  some, if◌then◌else◌, ltb, Bool-cases, inl, inr,
}
use soika.Base.Text.{Str, str_eq_iff, to_lower}
use soika.Base.Result.{Result, ok, err}
use soika.Errors.{Error}
use soika.Issues.Types.{Uuid, Timestamp}
use soika.Access.TeamRole.{TeamRole, admin, contributor}
use soika.Access.User.{User, UserStatus, active, pending}
use soika.Access.Invites.{Invite, Tables, is_none, is_active, is_for, is_open, open_invite}
use soika.Access.Invites.Join.{given_role}

-- The invite can be accepted by the account: it is there, not used and not expired, and the account
-- is there, active, and the one it was meant for, if it was meant for one.
pub record Acceptable (users : Uuid → Option User) (token : Str) (user_id : Uuid) (now : Timestamp)
    (t : Tables) : Type 0 where
  pub invite : Invite
  pub user : User
  pub found : t.invites token ≡ some invite
  pub unused : invite.accepted_at ≡ none
  pub unexpired : now < invite.expires_at
  pub account : users user_id ≡ some user
  pub approved : user.status ≡ active
  pub addressed :
      (target : Str) → invite.email ≡ some target → map to_lower target ≡ map to_lower user.email

-- The role after an acceptance.
abbrev pub role_after : Option TeamRole → TeamRole → TeamRole
role_after none role = role
role_after (some admin) role = admin
role_after (some contributor) role = role

abbrev some_or : Invite → Option Invite → Invite
some_or i none = i
some_or i (some invite) = invite

abbrev pub succeeds : Result Error (Unit {0}) → Bool
succeeds (ok u) = true
succeeds (err e) = false

pub open_invite-some :
    (now : Timestamp) (o : Option Invite) (invite : Invite)
    → open_invite now o ≡ some invite
    → (o ≡ some invite) × (is_open now invite ≡ true)
open_invite-some now none invite h = cc
open_invite-some now (some i) invite h = elim (Bool-cases (is_open now i)) [
  | inl yes_open ↦
      let one : some i ≡ some invite = sym (ap (λ b. if b then some i else none) yes_open) ∙ h in
      (one, ap (is_open now) (sym (ap (some_or i) one)) ∙ yes_open)
  | inr closed ↦
      let no : none ≡ some invite = sym (ap (λ b. if b then some i else none) closed) ∙ h in cc
]

pub role_after-given :
    (before : Option TeamRole) (role : TeamRole) → given_role before role ≡ role_after before role
role_after-given none role = refl
role_after-given (some admin) role = refl
role_after-given (some contributor) role = refl

pub is_open-parts :
    (now : Timestamp) (invite : Invite)
    → is_open now invite ≡ true
    → (invite.accepted_at ≡ none) × (now < invite.expires_at)
unfolding is_open
is_open-parts now invite h =
    let (unused, live) = &&_true (is_none invite.accepted_at) (ltb now invite.expires_at) h in
    (empty invite.accepted_at unused, ltb→lt now invite.expires_at live)
  where
    empty : (o : Option Timestamp) → is_none o ≡ true → o ≡ none
    empty none e = refl
    empty (some at) e = cc

pub is_open_now :
    (now : Timestamp) (invite : Invite)
    → invite.accepted_at ≡ none
    → now < invite.expires_at
    → is_open now invite ≡ true
unfolding is_open
is_open_now now invite unused live = ground (arith, unused, live)

pub is_active_iff : (s : UserStatus) → (is_active s ≡ true) ↔ (s ≡ active)
is_active_iff active = (λ h. refl, λ h. refl)
is_active_iff pending = (λ h. cc, λ h. cc)

pub is_for-parts :
    (email : Option Str) (own target : Str)
    → is_for email own ≡ true
    → email ≡ some target
    → map to_lower target ≡ map to_lower own
is_for-parts email own target h e =
    (str_eq_iff (map to_lower target) (map to_lower own)).0 (sym (ap (λ o. is_for o own) e) ∙ h)

pub is_for_all :
    (email : Option Str) (own : Str)
    → ((target : Str) → email ≡ some target → map to_lower target ≡ map to_lower own)
    → is_for email own ≡ true
is_for_all none own h = refl
is_for_all (some target) own h =
    (str_eq_iff (map to_lower target) (map to_lower own)).1 (h target refl)
