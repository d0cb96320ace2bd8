-- ===== src/Auth/Session/Carried.antt =====
-- src/auth/session.rs, src/config.rs: the cookie that a request carries, and the role of an account.
use soika.Base.{
  ◌⊎◌, ◌||◌, Option, List, [], ◌∷◌, ap, map, any, ◌==◌, ◌≡◌, refl, sym, ◌∙◌, true, false, none,
  some, Bool-cases, Option-cases, inl, inr,
}
use soika.Base.Text.{Str, codes, str_eq, str_eq_iff, to_lower, trim, split_once}
use soika.Access.User.{User, InstanceRole, owner, oidc}
use soika.Ingest.Request.{split}
use soika.Auth.Session.{find_cookie, contains, effective_role}

-- A text stands in a list.
abbrev pub IsIn : Str → List Str → Type 0
IsIn s [] = ⊥
IsIn s (x ∷ xs) = (s ≡ x) ⊎ IsIn s xs

-- A part `key=value` of a header carries the cookie of a session.
pub record IsCookie (header value : Str) : Type 0 where
  pub part : Str
  pub key : Str
  pub raw : Str
  pub listed : IsIn part (split (λ c. c == b';') header)
  pub parsed : split_once (trim part) (codes "=") ≡ some (key, raw)
  pub named : trim key ≡ codes "soika_session"
  pub trimmed : value ≡ trim raw

-- The environment makes the account of an email an owner; otherwise it has the role that is stored.
abbrev pub HasRole : List Str → Str → InstanceRole → InstanceRole → Type 0
HasRole admin_users email stored role =
    (IsIn (map to_lower (trim email)) admin_users × (role ≡ owner))
    ⊎ (¬ IsIn (map to_lower (trim email)) admin_users × (role ≡ stored))

-- Single sign-on lets the session of a user through.
abbrev pub IsAllowed : User → Type 0
IsAllowed user = (user.auth_provider ≡ oidc) ⊎ (user.instance_role ≡ owner)

any-IsIn : (s : Str) (l : List Str) → any (str_eq s) l ≡ true → IsIn s l
any-IsIn s [] h = cc
any-IsIn s (x ∷ l) h = elim (Bool-cases (str_eq s x)) [
  | inl same ↦ inl ((str_eq_iff s x).0 same)
  | inr other ↦ inr (any-IsIn s l (sym (ap (λ b. b || any (str_eq s) l) other) ∙ h))
]

any-IsNotIn : (s : Str) (l : List Str) → any (str_eq s) l ≡ false → ¬ IsIn s l
any-IsNotIn s [] h i = i
any-IsNotIn s (x ∷ l) h (inl e) =
    let same : str_eq s x ≡ true = (str_eq_iff s x).1 e in
    let no : true ≡ false = sym (ap (λ b. b || any (str_eq s) l) same) ∙ h in cc
any-IsNotIn s (x ∷ l) h (inr i) = elim (Bool-cases (str_eq s x)) [
  | inl same ↦ let no : true ≡ false = sym (ap (λ b. b || any (str_eq s) l) same) ∙ h in cc
  | inr other ↦ any-IsNotIn s l (sym (ap (λ b. b || any (str_eq s) l) other) ∙ h) i
]

pub effective_role-HasRole :
    (admin_users : List Str) (email : Str) (stored : InstanceRole)
    → HasRole admin_users email stored (effective_role admin_users email stored)
unfolding effective_role contains
effective_role-HasRole admin_users email stored = elim (Bool-cases (contains admin_users email)) [
  | inl listed ↦
      inl
        (any-IsIn (map to_lower (trim email)) admin_users listed, rw (effective_role, listed) refl)
  | inr unlisted ↦ inr (
    any-IsNotIn (map to_lower (trim email)) admin_users unlisted,
    rw (effective_role, unlisted) refl,
  )
]

-- What the loop over the parts of a header finds.
pub record Found (parts : List Str) (name value : Str) : Type 0 where
  pub part : Str
  pub key : Str
  pub raw : Str
  pub listed : IsIn part parts
  pub parsed : split_once (trim part) (codes "=") ≡ some (key, raw)
  pub named : trim key ≡ name
  pub trimmed : value ≡ trim raw

later :
    (p : Str) (parts : List Str) (name value : Str)
    → Found parts name value
    → Found (p ∷ parts) name value
later p parts name value f = record {
  part = f.part;
  key = f.key;
  raw = f.raw;
  listed = inr f.listed;
  parsed = f.parsed;
  named = f.named;
  trimmed = f.trimmed;
}

abbrev text_or : Str → Option Str → Str
text_or s none = s
text_or s (some t) = t

pub find_cookie-Found :
    (name value : Str) (parts : List Str)
    → find_cookie name parts ≡ some value
    → Found parts name value
unfolding find_cookie
find_cookie-Found name value [] h = cc
find_cookie-Found name value (p ∷ parts) h = elim (Option-cases (split_once (trim p) (codes "="))) [
  | inl e ↦ later p parts name value (find_cookie-Found name value parts (rw (find_cookie, e) at h))
  | inr ((k, v), e) ↦ elim (Bool-cases (str_eq (trim k) name)) [
    | inl same ↦ record {
      part = p;
      key = k;
      raw = v;
      listed = inl refl;
      parsed = e;
      named = (str_eq_iff (trim k) name).0 same;
      trimmed = sym (ap (text_or value) (rw (find_cookie, e, same) at h));
    }
    | inr other ↦
        later p parts name value
          (find_cookie-Found name value parts (rw (find_cookie, e, other) at h))
  ]
]
