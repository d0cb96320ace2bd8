-- ===== src/Notifications/Lifecycle/Tests.antt =====
-- A notification whose answer is lost, and the theorems at it.
use soika.Base.Time.{from_secs}
use soika.Base.{◌+◌, ◌≡◌, refl, true, false, none, some, [], ◌∷◌}
use soika.Base.Int.{pos}
use soika.Base.Text.{
  codes, str_eq, contains, starts_with, split_once, trim, trim_by, trim_start_by, trim_end,
}
use soika.Base.Dict.{lookup, insert}
use soika.Base.Result.{ok}
use soika.Errors.{internal}
use soika.Issues.Types.{Issue, unresolved}
use soika.Access.Projects.{Project}
use soika.Notifications.Template.{is_variable, next_placeholder, render_loop, render_template}
use soika.Notifications.Config.{AlertmanagerConfig, AlertmanagerNames, is_blank}
use soika.Notifications.Alert.{
  ActiveAlert, Show, alert_ttl, endpoint, variables, project_config, render_map, required,
  render_alert,
}
use soika.Notifications.Lifecycle.{
  delivered, unsure, put, remove_alert, Identity, World, find_alert, find_with, write_with,
  write_row, save_alert, send_with, send, resolve, publish, same_map, same_identity,
}
use soika.Notifications.Lifecycle.Steps.{
  Reads, current_alert, resolve_old, notify, reconcile, reconcile_live, renew, resend, is_leased,
  identity_changed, is_live, find_project_of,
}
use soika.Notifications.Lifecycle.Tracking.{fires, IsTracked}
use soika.Notifications.Lifecycle.Lease.{Lasts, reconcile-Lasts}
use soika.Notifications.Lifecycle.Reachable.{start, notified, Reach-IsTracked}

abbrev issue : Issue
issue = record {
  id = 3;
  short_id = codes "iss001";
  project_id = 1;
  fingerprint = codes "abc";
  title = codes "ValueError";
  culprit = none;
  level = none;
  environment = none;
  release = none;
  status = unresolved;
  muted_at = none;
  muted_until = none;
  mute_threshold = none;
  mute_window_seconds = none;
  first_seen = 10;
  last_seen = 10;
  event_count = 1;
  created_at = 10;
  updated_at = 10;
}

abbrev project : Project
project = record {
  id = 1;
  short_id = codes "web001";
  team_id = 2;
  name = codes "web";
  slug = codes "web";
  dsn_public_key = codes "key";
  retention_events = pos 10;
  retention_days = pos 10;
  muted = false;
  webhook_url = none;
  created_at = 1;
  updated_at = 1;
  orphaned_at = none;
}

abbrev config : AlertmanagerConfig
config = record {
  enabled = true;
  url = codes "http://am/";
  labels = (codes "alertname", codes "New {{ title }}") ∷ [];
  annotations = [];
}

abbrev names : AlertmanagerNames
names = record {
  critical = codes "A";
  warning = codes "B";
  info = codes "C";
  project_test = codes "D";
}

abbrev show : Show
show = record { id = λ id. codes "id"; count = λ n. codes "n"; time = λ t. codes "t" }

abbrev reads : Reads
reads = record {
  now = 20;
  notifications_alertmanager_enabled = true;
  config = ok config;
  org_name = ok (codes "soika");
  base_url = codes "http://soika";
  show = show;
  project_labels = λ slug. none;
  effective_names = ok names;
  severity = λ project. ok none;
  interval = λ project. ok 60;
  find_issue = λ id. ok (some issue);
  find_project = λ id. ok (some project);
}

abbrev empty : World
empty = record {
  rows = λ id. none;
  received = [];
  sends = λ n. unsure (internal []);
  writes = λ n. ok tt;
  finds = λ n. ok tt;
}

abbrev firing : Identity
firing = record {
  endpoint = codes "http://am/api/v2/alerts";
  labels =
      (codes "alertname", codes "New ValueError")
      ∷ (codes "issue_id", codes "id")
      ∷ (codes "project_id", codes "id")
      ∷ [];
}

abbrev after : World
after = (notify reads project issue (codes "new_issue") empty).0

after_fires : fires firing after.received ≡ true
unfolding fires notify find_alert find_with write_with write_row save_alert send_with send resolve
    publish same_map same_identity current_alert resolve_old alert_ttl endpoint variables
    project_config render_map required render_alert is_blank is_variable next_placeholder
    render_loop render_template str_eq contains starts_with split_once trim trim_by trim_start_by
    trim_end lookup insert
after_fires = refl

Reach-IsTracked_example : IsTracked firing after
Reach-IsTracked_example =
    Reach-IsTracked after
      (notified reads project issue (codes "new_issue") empty (start empty (λ id. refl) refl))
      firing after_fires

-- The alert of the issue, in the table but not sent yet, where all sends arrive.
abbrev saved : ActiveAlert
saved = record {
  issue_id = 3;
  endpoint = codes "http://am/api/v2/alerts";
  trigger = codes "new_issue";
  last_sent_at = none;
  alert = record {
    labels = firing.labels;
    annotations = [];
    starts_at = 10;
    ends_at = 15;
    generator_url = codes "http://soika";
  };
}

abbrev waiting : World
waiting = record {
  rows = put 3 (some saved) (λ id. none);
  received = [];
  sends = λ n. delivered;
  writes = λ n. ok tt;
  finds = λ n. ok tt;
}

succeeds : (reconcile reads config (codes "soika") saved waiting).1 ≡ some (ok tt)
unfolding find_alert find_with write_with write_row save_alert send_with send resolve publish
    same_map same_identity current_alert resolve_old alert_ttl endpoint variables project_config
    render_map required render_alert is_blank is_variable next_placeholder render_loop
    render_template str_eq contains starts_with split_once trim trim_by trim_start_by trim_end
    lookup insert reconcile reconcile_live renew resend is_leased identity_changed is_live
    find_project_of remove_alert
succeeds = refl

reconcile-Lasts_example :
    Lasts 3 (20 + from_secs 60) (reconcile reads config (codes "soika") saved waiting).0
reconcile-Lasts_example =
    reconcile-Lasts reads config (codes "soika") saved 60 waiting (λ id. refl) refl succeeds
