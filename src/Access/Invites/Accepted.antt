-- ===== src/Access/Invites/Accepted.antt =====
-- src/adapters/sqlite/invite.rs: what the acceptance of an invite does, and how often it can happen.
use soika.Base.{
  &&_true, subst, ℕ, ◌+◌, ◌≤◌, ◌≡◌, ◌⊎◌, refl, sym, ap, ◌∙◌, arith, Bool, true, false, ◌&&◌, Option,
  none, some, List, [], ◌∷◌, if◌then◌else◌, ltb, Bool-cases, Option-cases, inl, inr,
}
use soika.Base.Text.{Str, codes, str_eq_refl}
use soika.Base.Result.{Result, ok, err}
use soika.Errors.{Error, auth, forbidden}
use soika.Issues.Types.{Uuid, Timestamp}
use soika.Access.User.{User}
use soika.Access.Members.{member_role}
use soika.Access.Invites.{
  Invite, Tables, is_none, is_active, is_for, is_open, open_invite, is_available, accepted, accept,
}
use soika.Access.Invites.Join.{member_role-join_team}
use soika.Access.Invites.Acceptable.{
  Acceptable, role_after, succeeds, open_invite-some, role_after-given, is_open-parts, is_open_now,
  is_active_iff, is_for-parts, is_for_all,
}

-- What an acceptance does.
pub record Joined (users : Uuid → Option User) (token : Str) (user_id : Uuid) (now : Timestamp)
    (t t' : Tables) : Type 0 where
  pub was : Acceptable users token user_id now t
  pub used : t'.invites token ≡ some (record was.invite { accepted_at = some now })
  pub role :
      member_role was.invite.team_id user_id t'.team_members
      ≡ some (role_after (member_role was.invite.team_id user_id t.team_members) was.invite.role)

module _ (users : Uuid → Option User) (token : Str) (user_id : Uuid) (now : Timestamp)
    (t : Tables) where
  -- An invite that can be accepted passes the tests.
  can_accept :
      (a : Acceptable users token user_id now t)
      → (open_invite now (t.invites token) ≡ some a.invite) × (is_available a.invite a.user ≡ true)
  unfolding is_available
  can_accept a = (
    ap (open_invite now) a.found
        ∙ ap (λ b. if b then some a.invite else none)
            (is_open_now now a.invite a.unused a.unexpired),
    ap (λ b. b && is_for a.invite.email a.user.email) ((is_active_iff a.user.status).1 a.approved)
        ∙ is_for_all a.invite.email a.user.email a.addressed,
  )

  accepts :
      (a : Acceptable users token user_id now t)
      → accept users token user_id now t ≡ (accepted token a.invite user_id now t, ok tt)
  unfolding accept
  accepts a =
      let (opened, available) = can_accept a in rw (opened, a.account, available, accept) refl

  refuses :
      (e : Error)
      → accept users token user_id now t ≡ (t, err e)
      → ¬ Acceptable users token user_id now t
  refuses e h a = let no : true ≡ false = ap (λ r. succeeds r.1) (sym (accepts a) ∙ h) in cc

  -- A failure, or the effect of an acceptance.
  abbrev Outcome : Tables × Result Error (Unit {0}) → Type 0
  Outcome (t', r) =
      ((r ≡ ok tt) × Joined users token user_id now t t')
      ⊎ ((e : Error) × (r ≡ err e) × (t' ≡ t) × ¬ Acceptable users token user_id now t)

  failed :
      (e : Error)
      → accept users token user_id now t ≡ (t, err e)
      → Outcome (accept users token user_id now t)
  failed e h = subst Outcome (sym h) (inr (e, refl, refl, refuses e h))

  succeeded :
      (a : Acceptable users token user_id now t) → Outcome (accept users token user_id now t)
  unfolding accepted
  succeeded a = subst Outcome (sym (accepts a)) (
      inl (
        refl,
        record {
          was = a;
          used =
              ap
                (λ b.
                  if b then some (record a.invite { accepted_at = some now }) else t.invites token)
                (str_eq_refl token);
          role =
              member_role-join_team a.invite.team_id user_id a.invite.role now t.team_members
              ∙ ap some (
                  role_after-given (member_role a.invite.team_id user_id t.team_members)
                    a.invite.role);
        },
      ))

pub accept-Joined :
    (users : Uuid → Option User) (token : Str) (user_id : Uuid) (now : Timestamp) (t : Tables)
    → let (t', r) = accept users token user_id now t in
      ((r ≡ ok tt) × Joined users token user_id now t t')
      ⊎ ((e : Error) × (r ≡ err e) × (t' ≡ t) × ¬ Acceptable users token user_id now t)
unfolding accept is_available
accept-Joined users token user_id now t = elim (Option-cases (open_invite now (t.invites token))) [
  | inl e ↦
      failed users token user_id now t (auth (codes "invite expired or already used"))
        (rw (e, accept) refl)
  | inr (invite, e) ↦ elim (Option-cases (users user_id)) [
    | inl f ↦
        failed users token user_id now t (auth (codes "user no longer exists"))
          (rw (e, f, accept) refl)
    | inr (user, f) ↦ elim (Bool-cases (is_available invite user)) [
      | inr g ↦
          failed users token user_id now t
            (forbidden (codes "invite is not available to this account"))
            (rw (e, f, g, accept) refl)
      | inl g ↦
          let (found, opened) = open_invite-some now (t.invites token) invite e in
          let (unused, unexpired) = is_open-parts now invite opened in
          let (approved, addressed) =
            &&_true (is_active user.status) (is_for invite.email user.email) g in
          succeeded users token user_id now t (record {
            invite = invite;
            user = user;
            found = found;
            unused = unused;
            unexpired = unexpired;
            account = f;
            approved = (is_active_iff user.status).0 approved;
            addressed = λ target. is_for-parts invite.email user.email target addressed;
          })
    ]
  ]
]

-- The number of attempts on a token that succeed, one after the other, each by an account at a time.
abbrev one_if_ok : Result Error (Unit {0}) → ℕ
one_if_ok (ok u) = 1
one_if_ok (err e) = 0

abbrev pub successes : (Uuid → Option User) → Str → List (Uuid × Timestamp) → Tables → ℕ
successes users token [] t = 0
successes users token ((user_id, now) ∷ attempts) t =
    let (t', r) = accept users token user_id now t in
    one_if_ok r + successes users token attempts t'

abbrev is_set : Option Timestamp → Bool
is_set none = false
is_set (some at) = true

abbrev is_used : Option Invite → Bool
is_used none = false
is_used (some invite) = is_set invite.accepted_at

used_is_closed : (now : Timestamp) (o : Option Invite) → is_used o ≡ true → open_invite now o ≡ none
unfolding is_open
used_is_closed now none h = cc
used_is_closed now (some invite) h = elim (Option-cases invite.accepted_at) [
  | inl e ↦ let no : false ≡ true = sym (ap is_set e) ∙ h in cc
  | inr (at, e) ↦
      ap (λ b. if b then some invite else none) (ap (λ o. is_none o && ltb now invite.expires_at) e)
]

used_never_again :
    (users : Uuid → Option User) (token : Str) (attempts : List (Uuid × Timestamp)) (t : Tables)
    → is_used (t.invites token) ≡ true
    → successes users token attempts t ≡ 0
unfolding accept
used_never_again users token [] t h = refl
used_never_again users token ((user_id, now) ∷ attempts) t h =
    let closed = used_is_closed now (t.invites token) h in
    rw (closed, accept) (omega (arith, used_never_again users token attempts t h))

-- However many accounts try to accept an invite, and whenever, at most one attempt succeeds.
pub accept_once :
    (users : Uuid → Option User) (token : Str) (attempts : List (Uuid × Timestamp)) (t : Tables)
    → successes users token attempts t ≤ 1
accept_once users token [] t = omega arith
accept_once users token ((user_id, now) ∷ attempts) t =
    elim (accept-Joined users token user_id now t) [
      | inl (e, joined) ↦
          let t' = (accept users token user_id now t).0 in
          omega (
            arith,
            ap one_if_ok e,
            used_never_again users token attempts t' (ap is_used joined.used),
          )
      | inr (x, e, same, refused) ↦ omega (
        arith,
        ap one_if_ok e,
        accept_once users token attempts (accept users token user_id now t).0,
      )
    ]
