-- ===== src/Access/Invites/Tests.antt =====
-- An invite that two accounts try to accept, and the theorems at them.
use soika.Base.{◌≤◌, ◌≡◌, refl, true, Option, none, some, [], ◌∷◌}
use soika.Base.Text.{codes, str_eq}
use soika.Base.Result.{ok}
use soika.Issues.Types.{Uuid}
use soika.Access.TeamRole.{contributor}
use soika.Access.User.{User, local, active}
use soika.Access.User
use soika.Access.Invites.{Tables, is_open, is_available, accept}
use soika.Access.Invites.Acceptable.{Acceptable}
use soika.Access.Invites.Accepted.{successes, accept_once}

abbrev users : Uuid → Option User
users id = some (record {
  id = id;
  email = codes "Ann@x.org";
  display_name = [];
  password_hash = [];
  instance_role = User.member;
  notifications_enabled = true;
  locale = none;
  auth_provider = local;
  status = active;
  created_at = 1;
  updated_at = 1;
})

abbrev invited : Tables
invited = record {
  invites = λ token. some (record {
    token = token;
    team_id = 2;
    role = contributor;
    email = some (codes "ann@x.org");
    created_by = none;
    created_at = 1;
    expires_at = 100;
    accepted_at = none;
  });
  team_members = [];
}

works : (accept users (codes "t") 7 50 invited).1 ≡ ok tt
unfolding accept is_open is_available str_eq
works = refl

accept_once_example : successes users (codes "t") ((7, 50) ∷ (8, 60) ∷ []) invited ≤ 1
accept_once_example = accept_once users (codes "t") ((7, 50) ∷ (8, 60) ∷ []) invited
