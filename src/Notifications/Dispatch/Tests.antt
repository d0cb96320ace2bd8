-- ===== src/Notifications/Dispatch/Tests.antt =====
-- An issue that is announced by a webhook and to one of two members, and the theorem at it.
use soika.Base.{◌≡◌, ◌≢◌, ◌⊎◌, refl, Bool, true, false, none, some, List, [], ◌∷◌}
use soika.Base.Int.{pos}
use soika.Base.Text.{Str, codes}
use soika.Base.Result.{ok, err}
use soika.Errors.{internal}
use soika.Issues.Types.{Issue, unresolved, muted}
use soika.Access.Projects.{Project}
use soika.Access.TeamRole.{TeamRole}
use soika.Access.User.{User, local, active}
use soika.Access.User
use soika.Notifications.Lifecycle.{World, lost}
use soika.Notifications.Lifecycle.Steps.{Reads}
use soika.Notifications.Dispatch.{regression, Outbox, Channels, dispatch}
use soika.Notifications.Dispatch.Reached.{Announced, dispatch-recipients}

abbrev issue : Issue
issue = record {
  id = 3;
  short_id = codes "iss001";
  project_id = 1;
  fingerprint = codes "abc";
  title = codes "ValueError";
  culprit = none;
  level = none;
  environment = none;
  release = none;
  status = unresolved;
  muted_at = none;
  muted_until = none;
  mute_threshold = none;
  mute_window_seconds = none;
  first_seen = 10;
  last_seen = 10;
  event_count = 1;
  created_at = 10;
  updated_at = 10;
}

abbrev project : Project
project = record {
  id = 1;
  short_id = codes "web001";
  team_id = 2;
  name = codes "web";
  slug = codes "web";
  dsn_public_key = codes "key";
  retention_events = pos 10;
  retention_days = pos 10;
  muted = false;
  webhook_url = some (codes "http://hook");
  created_at = 1;
  updated_at = 1;
  orphaned_at = none;
}

abbrev user : Str → Bool → User
user email notified = record {
  id = 1;
  email = email;
  display_name = [];
  password_hash = [];
  instance_role = User.member;
  notifications_enabled = notified;
  locale = none;
  auth_provider = local;
  status = active;
  created_at = 1;
  updated_at = 1;
}

abbrev team : List (User × TeamRole)
team =
    (user (codes "ann") true, TeamRole.admin)
    ∷ (user (codes "bob") false, TeamRole.contributor)
    ∷ []

-- Alertmanager is turned on, and its settings cannot be read.
abbrev reads : Reads
reads = record {
  now = 20;
  notifications_alertmanager_enabled = true;
  config = err (internal []);
  org_name = ok (codes "soika");
  base_url = codes "http://soika";
  show = record { id = λ id. codes "id"; count = λ n. codes "n"; time = λ t. codes "t" };
  project_labels = λ slug. none;
  effective_names = err (internal []);
  severity = λ project. ok none;
  interval = λ project. ok 60;
  find_issue = λ id. ok (some issue);
  find_project = λ id. ok (some project);
}

abbrev channels : Channels
channels = record {
  reads = reads;
  simple = λ id. codes "id";
  webhooks_enabled = true;
  mailer_enabled = true;
  members_of = λ team_id. ok team;
  email = λ trigger to. ok (codes "Regression");
}

abbrev world : World
world = record {
  rows = λ id. none;
  received = [];
  sends = λ n. lost (internal []);
  writes = λ n. ok tt;
  finds = λ n. ok tt;
}

abbrev empty : Outbox
empty = record { posts = []; mails = [] }

dispatch-recipients_example :
    ((project.muted ≡ false)
      × (issue.status ≢ muted)
      × Announced channels project issue regression world empty
          (codes "http://hook")
          team
          (λ a. codes "Regression")
          (dispatch channels project issue regression world empty).1)
    ⊎ (((project.muted ≡ true) ⊎ (issue.status ≡ muted))
        × (dispatch channels project issue regression world empty ≡ (world, empty, ok tt)))
dispatch-recipients_example =
    dispatch-recipients channels project issue regression world empty (codes "http://hook") team
      (λ a. codes "Regression") refl refl refl refl (λ a. refl)
