-- ===== src/Auth/Session/Who.antt =====
-- src/auth/session.rs: whom a request is taken for.
use soika.Base.{
  ◌<◌, ◌⊎◌, Bool, ◌||◌, ltb→lt, ◌==◌, ◌≡◌, ◌≢◌, refl, subst, true, false, not, ◌&&◌, none, some,
  ltb, Bool-cases, Option-cases, inl, inr,
}
use soika.Base.Text.{Str, codes, str_eq_refl}
use soika.Base.Result.{Result, ok, err, Result-cases, Ok}
use soika.Errors.{Error, auth}
use soika.Issues.Types.{Timestamp}
use soika.Access.User.{
  User, InstanceRole, owner, manager, member, AuthProvider, local, oidc, is_oidc, is_owner,
  UserStatus, active, pending, session_allowed_with_sso,
}
use soika.Ingest.Request.{Headers, split}
use soika.Auth.Session.{
  read_cookie, find_cookie, session_cookie, Session, Sessions, State, find, delete, apply,
  is_pending, session_id_from_headers, admit_user, authenticate_user, end_session,
}
use soika.Auth.Session.Carried.{
  IsCookie, HasRole, IsAllowed, effective_role-HasRole, find_cookie-Found,
}

module _ (state : State) (headers : Headers) (now : Timestamp) (sessions : Sessions) where
  -- The request carries a cookie whose signature is good, for the id of a session that is stored and
  -- has not expired; its account is there and approved, and may have a session where single sign-on is
  -- configured; the user is the account, as an owner if the environment lists its email.
  pub record IsLoggedIn (user : User) : Type 0 where
    pub header : Str
    pub value : Str
    pub id : Str
    pub session : Session
    pub account : User
    pub sent : headers (codes "cookie") ≡ some header
    pub cookie : IsCookie header value
    pub signed : state.verify_str value ≡ some id
    pub stored : sessions id ≡ some session
    pub unexpired : now < session.expires_at
    pub known : state.find_user session.user_id ≡ ok (some account)
    pub approved : account.status ≡ active
    pub allowed : state.has_oidc ≡ true → IsAllowed user
    pub same_account : user ≡ record account { instance_role = user.instance_role }
    pub role : HasRole state.admin_users account.email account.instance_role user.instance_role

  -- What is found of the account.
  abbrev IsAdmitted : User → User → Type 0
  IsAdmitted account user =
      (account.status ≡ active)
      × (state.has_oidc ≡ true → IsAllowed user)
      × (user ≡ record account { instance_role = user.instance_role })
      × HasRole state.admin_users account.email account.instance_role user.instance_role

  is_active : (s : UserStatus) → is_pending s ≡ false → s ≡ active
  is_active active h = refl
  is_active pending h = cc

  is_allowed :
      (user : User) (b : Bool)
      → b && not (session_allowed_with_sso user) ≡ false
      → b ≡ true
      → IsAllowed user
  unfolding session_allowed_with_sso is_owner
  is_allowed user b h on = either user.auth_provider user.instance_role (rw on at h)
    where
      either :
          (p : AuthProvider) (r : InstanceRole)
          → not (is_oidc p || is_owner r) ≡ false
          → (p ≡ oidc) ⊎ (r ≡ owner)
      either oidc r e = inl refl
      either local owner e = inr refl
      either local manager e = cc
      either local member e = cc

  admit_user-Ok : (account : User) → Ok (IsAdmitted account) (admit_user state account)
  unfolding admit_user apply
  admit_user-Ok account = elim (Bool-cases (is_pending account.status)) [
    | inl p ↦ rw (admit_user, p, Ok) tt
    | inr p ↦
        elim (Bool-cases
          (state.has_oidc && not (session_allowed_with_sso (apply state.admin_users account)))) [
            | inl q ↦ rw (admit_user, p, q, Ok) tt
            | inr q ↦
                let good : IsAdmitted account (apply state.admin_users account) = (
                  is_active account.status p,
                  is_allowed (apply state.admin_users account) state.has_oidc q,
                  refl,
                  effective_role-HasRole state.admin_users account.email account.instance_role,
                ) in
                rw (admit_user, p, q, Ok) good
          ]
  ]

  -- The cookie that the id of a session comes from.
  abbrev Carried : Str → Type 0
  Carried id =
      (header : Str) × (value : Str) × (headers (codes "cookie") ≡ some header)
      × IsCookie header value
      × (state.verify_str value ≡ some id)

  session_id_from_headers-Carried :
      (id : Str) → session_id_from_headers state headers ≡ some id → Carried id
  unfolding session_id_from_headers read_cookie
  session_id_from_headers-Carried id h = elim (Option-cases (headers (codes "cookie"))) [
    | inl e ↦ let no : none ≡ some id = rw (session_id_from_headers, e) at h in cc
    | inr (header, e) ↦
        elim (Option-cases (find_cookie session_cookie (split (λ c. c == b';') header))) [
          | inl f ↦ let no : none ≡ some id = rw (session_id_from_headers, e, f) at h in cc
          | inr (value, f) ↦
              let found =
                find_cookie-Found session_cookie value (split (λ c. c == b';') header) f in
              (
                header,
                value,
                e,
                record {
                  part = found.part;
                  key = found.key;
                  raw = found.raw;
                  listed = found.listed;
                  parsed = found.parsed;
                  named = found.named;
                  trimmed = found.trimmed;
                },
                rw (session_id_from_headers, e, f) at h,
              )
        ]
  ]

  Ok-weaken :
      (P Q : User → Type 0) (r : Result Error User)
      → ((user : User) → P user → Q user)
      → Ok P r
      → Ok Q r
  Ok-weaken P Q (ok user) f h = f user h
  Ok-weaken P Q (err e) f h = tt

  found_session :
      (id : Str) (session : Session)
      → sessions id ≡ some session
      → ltb now session.expires_at ≡ true
      → find now id sessions ≡ some session
  unfolding find
  found_session id session e live = rw (e, live) refl

  missing_session : (id : Str) → sessions id ≡ none → find now id sessions ≡ none
  unfolding find
  missing_session id e = rw e refl

  expired_session :
      (id : Str) (session : Session)
      → sessions id ≡ some session
      → ltb now session.expires_at ≡ false
      → find now id sessions ≡ none
  unfolding find
  expired_session id session e over = rw (e, over) refl

  authenticate_user-Ok : Ok IsLoggedIn (authenticate_user state headers now sessions)
  unfolding authenticate_user
  authenticate_user-Ok = elim (Option-cases (session_id_from_headers state headers)) [
    | inl e ↦ rw (authenticate_user, e, Ok) tt
    | inr (id, e) ↦ elim (Option-cases (sessions id)) [
      | inl f ↦ rw (authenticate_user, e, missing_session id f, Ok) tt
      | inr (session, f) ↦ elim (Bool-cases (ltb now session.expires_at)) [
        | inr over ↦ rw (authenticate_user, e, expired_session id session f over, Ok) tt
        | inl live ↦ elim (Result-cases (state.find_user session.user_id)) [
          | inl (x, g) ↦ rw (authenticate_user, e, found_session id session f live, g, Ok) tt
          | inr (none, g) ↦ rw (authenticate_user, e, found_session id session f live, g, Ok) tt
          | inr (some account, g) ↦
              let (header, value, sent, cookie, signed) = session_id_from_headers-Carried id e in
              rw (authenticate_user, e, found_session id session f live, g)
                (Ok-weaken (IsAdmitted account) IsLoggedIn (admit_user state account)
                  (λ user (approved, allowed, same, role). record {
                    header = header;
                    value = value;
                    id = id;
                    session = session;
                    account = account;
                    sent = sent;
                    cookie = cookie;
                    signed = signed;
                    stored = f;
                    unexpired = ltb→lt now session.expires_at live;
                    known = g;
                    approved = approved;
                    allowed = allowed;
                    same_account = same;
                    role = role;
                  })
                  (admit_user-Ok account))
        ]
      ]
    ]
  ]

  -- A request that is taken for a user carries a cookie of the program's name whose signature is good,
  -- with the id of a session that is stored and has not expired, of an account that is known and
  -- active; the user is that account, as an owner exactly if the environment lists its email or it is
  -- stored as one, and if single sign-on is configured, it signs in with that or is an owner.
  pub authenticate_user-IsLoggedIn :
      (user : User) → authenticate_user state headers now sessions ≡ ok user → IsLoggedIn user
  authenticate_user-IsLoggedIn user h = subst (Ok IsLoggedIn) h authenticate_user-Ok

-- After a request has ended its session, the same cookie is taken for nobody.
pub authenticate_user-end_session :
    (state : State) (headers : Headers) (now : Timestamp) (sessions : Sessions) (user : User)
    → authenticate_user state headers now (end_session state headers sessions) ≢ ok user
unfolding authenticate_user end_session delete
authenticate_user-end_session state headers now sessions user h =
    elim (Option-cases (session_id_from_headers state headers)) [
      | inl e ↦
          let no : err (auth (codes "missing or invalid session")) ≡ ok user =
            rw (authenticate_user, e) at h in
          cc
      | inr (id, e) ↦
          let gone : end_session state headers sessions id ≡ none =
            rw (end_session, e, str_eq_refl id) refl in
          let missing =
            missing_session state headers now (end_session state headers sessions) id gone in
          let no : err (auth (codes "session not found or expired")) ≡ ok user =
            rw (authenticate_user, e, missing) at h in
          cc
    ]
