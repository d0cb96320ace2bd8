-- ===== src/Notifications/Alert.antt =====
-- src/alertmanager.rs: the alert of an issue, rendered from the templates. The texts of ids, counts
-- and times are those of other libraries.
pub mod Renders
mod Tests
use soika.Base.{ℕ, ◌+◌, ◌*◌, Option, none, some, [], ◌∷◌, ◌++◌, max, if◌then◌else◌}
use soika.Base.Text.{Str, codes, trim_end}
use soika.Base.Time.{from_secs}
use soika.Base.Dict.{Dict, lookup, insert}
use soika.Base.Result.{ok, err}
use soika.Errors.{validation}
use soika.Issues.Types.{Uuid, Timestamp, Issue}
use soika.Access.Projects.{Project}
use soika.Notifications.Template.{render_template}
use soika.Notifications.Config.{
  AlertmanagerConfig, AlertmanagerNames, AlertSeverity, Run, ◌>>=◌, is_blank, for_severity, as_str,
}

pub record AlertmanagerAlert : Type 0 where
  pub labels : Dict Str
  pub annotations : Dict Str
  pub starts_at : Timestamp
  pub ends_at : Timestamp
  pub generator_url : Str

pub record ActiveAlert : Type 0 where
  pub last_sent_at : Option Timestamp
  pub issue_id : Uuid
  pub endpoint : Str
  pub trigger : Str
  pub alert : AlertmanagerAlert

-- `Display` of a UUID and of a count, and `to_rfc3339`.
pub record Show : Type 0 where
  pub id : Uuid → Str
  pub count : ℕ → Str
  pub time : Timestamp → Str

-- Seconds.
abbrev pub alert_ttl_secs : ℕ
alert_ttl_secs = 300

-- The interval is between 10 and 86400 seconds, by `validate_interval`.
unfoldable pub alert_ttl : ℕ → ℕ
alert_ttl interval_seconds = max alert_ttl_secs (interval_seconds * 3)

unfoldable pub endpoint : AlertmanagerConfig → Str
endpoint config = trim_end b'/' config.url ++ codes "/api/v2/alerts"

abbrev unwrap_or_empty : Option Str → Str
unwrap_or_empty none = []
unwrap_or_empty (some s) = s

abbrev level_or_error : Option Str → Str
level_or_error none = codes "error"
level_or_error (some s) = s

unfoldable pub variables : Show → Str → Str → Project → Issue → Str → Dict Str
unfolding trim_end
variables show base_url org project issue trigger =
    (codes "project_name", project.name)
    ∷ (codes "project_slug", project.slug)
    ∷ (codes "project_id", show.id project.id)
    ∷ (codes "team_id", show.id project.team_id)
    ∷ (codes "issue_id", show.id issue.id)
    ∷ (codes "issue_short_id", issue.short_id)
    ∷ (codes "title", issue.title)
    ∷ (codes "culprit", unwrap_or_empty issue.culprit)
    ∷ (codes "level", level_or_error issue.level)
    ∷ (codes "environment", unwrap_or_empty issue.environment)
    ∷ (codes "release", unwrap_or_empty issue.release)
    ∷ (codes "event_count", show.count issue.event_count)
    ∷ (codes "first_seen", show.time issue.first_seen)
    ∷ (codes "last_seen", show.time issue.last_seen)
    ∷ (
      codes "issue_url",
      trim_end b'/' base_url
          ++ (codes "/projects/" ++ (project.slug ++ (codes "/issues/" ++ issue.short_id))),
    )
    ∷ (codes "org_name", org)
    ∷ (codes "trigger", trigger)
    ∷ []

-- `project_config`: the labels of the project and the name and level of the severity over the
-- configured ones.
abbrev extend : Dict Str → Dict Str → Dict Str
extend labels [] = labels
extend labels ((key, value) ∷ more) = extend (insert key value labels) more

unfoldable pub project_config :
    Option (Dict Str)
    → AlertmanagerNames
    → Option AlertSeverity
    → AlertmanagerConfig
    → AlertmanagerConfig
unfolding for_severity as_str
project_config project_labels names severity config =
    let labels = elim project_labels as (λ o. Dict Str) [
      | none ↦ config.labels
      | some more ↦ extend config.labels more
    ] in
    elim severity [
      | none ↦ record config { labels = labels }
      | some s ↦ record config {
        labels =
            insert (codes "severity") (as_str s)
              (insert (codes "alertname") (for_severity names s) labels);
      }
    ]

unfoldable pub render_map : Dict Str → Dict Str → Run (Dict Str)
render_map vars [] = some (ok [])
render_map vars ((key, value) ∷ map) = render_template value vars >>= λ rendered.
    render_map vars map >>= λ rest. some (ok ((key, rendered) ∷ rest))

unfoldable pub required : Dict Str → Str → Run Str
required vars key = elim (lookup key vars) [
  | none ↦ some (err (validation (codes "missing notification variable: " ++ key)))
  | some v ↦ some (ok v)
]

unfoldable pub render_alert : AlertmanagerConfig → Dict Str → Timestamp → Run AlertmanagerAlert
unfolding render_map required is_blank
render_alert config vars now = render_map vars config.labels >>= λ rendered.
    required vars (codes "issue_id") >>= λ issue_id.
    required vars (codes "project_id") >>= λ project_id.
    let labels =
      insert (codes "project_id") project_id (insert (codes "issue_id") issue_id rendered) in
    if is_blank (lookup (codes "alertname") labels)
    then some (err (validation (codes "rendered alertname must not be empty")))
    else (render_map vars config.annotations >>= λ annotations.
        required vars (codes "issue_url") >>= λ url. some (
          ok (record {
            labels = labels;
            annotations = annotations;
            starts_at = now;
            ends_at = now + from_secs alert_ttl_secs;
            generator_url = url;
          })))
