-- ===== src/Access/Tests.antt =====
-- A team of two, and the theorems at it.
use soika.Base.{if◌then◌else◌, ◌≡◌, ◌⊎◌, ◌↔◌, true, false, Option, none, some, [], ◌∷◌}
use soika.Base.Int.{pos}
use soika.Base.Text.{Str, codes, str_eq}
use soika.Base.Result.{ok, Ok}
use soika.Issues.Types.{Uuid}
use soika.Access.TeamRole.{TeamRole, contributor}
use soika.Access.User.{
  User, InstanceRole, manager, local, active, as_str, from_str, from_db, can_manage_instance,
}
use soika.Access.User
use soika.Access.Teams.{Team, Directory, remove, handle}
use soika.Access.Teams.Gate.{Permitted, handle-Permitted}
use soika.Access.Projects.{Project, AppState, require_admin}
use soika.Access.Projects.Rules.{Holds, require_admin-grants}

abbrev ann : User
ann = record {
  id = 1;
  email = codes "ann@example.org";
  display_name = codes "Ann";
  password_hash = [];
  instance_role = User.member;
  notifications_enabled = true;
  locale = none;
  auth_provider = local;
  status = active;
  created_at = 0;
  updated_at = 0;
}

abbrev ops : Team
ops = record {
  id = 10;
  short_id = codes "ops";
  name = codes "Ops";
  created_at = 0;
  updated_at = 0;
  orphaned_at = none;
}

abbrev office : Directory
office = record {
  yaml_teams = false;
  users = ann ∷ record ann { id = 2 } ∷ [];
  teams = ops ∷ [];
  team_members =
      record { team_id = 10; user_id = 1; role = TeamRole.admin; created_at = 0 }
      ∷ record { team_id = 10; user_id = 2; role = contributor; created_at = 0 }
      ∷ [];
}

-- The ids are written with one character.
abbrev one_digit : Str → Option Uuid
one_digit raw =
    if str_eq raw (codes "1") then some 1 else if str_eq raw (codes "2") then some 2 else none

handle-Permitted_example :
    Ok
      (λ (d : Directory). Permitted one_digit ann (codes "ops") office d.team_members)
      (handle one_digit ann (codes "ops") 5 (remove (codes "2")) office)
handle-Permitted_example =
    handle-Permitted one_digit ann (codes "ops") office 5 (remove (codes "2"))

abbrev shop : Project
shop = record {
  id = 100;
  short_id = codes "abc123";
  team_id = 10;
  name = codes "Shop";
  slug = codes "shop";
  dsn_public_key = codes "key";
  retention_events = pos 0;
  retention_days = pos 0;
  muted = false;
  webhook_url = none;
  created_at = 0;
  updated_at = 0;
  orphaned_at = none;
}

abbrev served : AppState
served = record {
  find_by_id = λ id. ok (some shop);
  find_by_slug = λ slug. ok (some shop);
  find_by_short_id = λ id. ok none;
  member_role = λ team user. ok (some contributor);
}

require_admin-grants_example :
    (require_admin (λ e. []) served ann 100 ≡ ok tt)
    ↔ ((can_manage_instance User.member ≡ true) ⊎ Holds served ann 100 TeamRole.admin)
require_admin-grants_example = require_admin-grants (λ e. []) served ann 100
