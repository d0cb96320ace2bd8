-- ===== src/Notifications/Lifecycle/Steps.antt =====
-- src/alertmanager.rs: `notify`, `reconcile` and `refresh`. What they read is given: the settings,
-- the issues and the projects.
use soika.Base.{
  ℕ, ◌+◌, Bool, true, false, ◌||◌, ◌&&◌, not, Option, none, some, List, [], ◌∷◌, if◌then◌else◌, ltb,
}
use soika.Base.Text.{Str, codes, str_eq}
use soika.Base.Time.{from_secs}
use soika.Base.Dict.{Dict}
use soika.Base.Result.{Result, ok, err}
use soika.Errors.{Error, internal}
use soika.Issues.Types.{Uuid, Timestamp, Issue, unresolved, status_eq}
use soika.Access.Projects.{Project}
use soika.Notifications.Config.{AlertmanagerConfig, AlertmanagerNames, AlertSeverity, Run, ◌>>=◌}
use soika.Notifications.Alert.{
  AlertmanagerAlert, ActiveAlert, Show, alert_ttl, endpoint, variables, project_config,
  render_alert,
}
use soika.Notifications.Lifecycle.{
  World, Op, ◌>>>◌, run, lift, done, find_alert, remove_alert, resolve, publish, same_map,
}

-- What the operations read.
pub record Reads : Type 0 where
  pub now : Timestamp
  pub notifications_alertmanager_enabled : Bool
  pub config : Result Error AlertmanagerConfig
  pub org_name : Result Error Str
  pub base_url : Str
  pub show : Show
  pub project_labels : Str → Option (Dict Str)
  pub effective_names : Result Error AlertmanagerNames
  pub severity : Option Uuid → Result Error (Option AlertSeverity)
  pub interval : Uuid → Result Error ℕ
  pub find_issue : Uuid → Result Error (Option Issue)
  pub find_project : Uuid → Result Error (Option Project)

abbrev pub or : Option AlertSeverity → Option AlertSeverity → Option AlertSeverity
or none default = default
or (some s) default = some s

-- The alert of an issue as the settings have it now, and the interval of its project.
unfoldable pub current_alert :
    Reads → AlertmanagerConfig → Str → Project → Issue → Str → Run (AlertmanagerAlert × ℕ)
unfolding project_config variables render_alert alert_ttl
current_alert r config org project issue trigger = some r.effective_names >>= λ names.
    some (r.severity (some project.id)) >>= λ own. some (r.severity none) >>= λ default.
    render_alert (project_config (r.project_labels project.slug) names (or own default) config)
      (variables r.show r.base_url org project issue trigger) r.now
    >>= λ alert. some (r.interval project.id) >>= λ seconds.
        some (ok (record alert { ends_at = r.now + from_secs (alert_ttl seconds) }, seconds))

-- What is left of an issue's alert before the new one is saved.
unfoldable pub resolve_old : Timestamp → Option ActiveAlert → Op (Unit {0})
unfolding resolve
resolve_old now none = done tt
resolve_old now (some old) = resolve now old

unfoldable pub notify : Reads → Project → Issue → Str → Op (Unit {0})
unfolding current_alert find_alert resolve_old publish endpoint
notify r project issue trigger =
    if not r.notifications_alertmanager_enabled
    then done tt
    else (lift r.config >>> λ config.
        if not config.enabled
        then done tt
        else (lift r.org_name >>> λ org.
            run (current_alert r config org project issue trigger) >>> λ rendered.
            find_alert issue.id >>> λ old. resolve_old r.now old >>> λ resolved.
            publish r.now (record {
              last_sent_at = none;
              issue_id = issue.id;
              endpoint = endpoint config;
              trigger = trigger;
              alert = rendered.0;
            })))

abbrev is_none {ℓ} : {A : Type ℓ} → Option A → Bool
is_none none = true
is_none (some a) = false

unfoldable pub is_live : AlertmanagerConfig → Option Project → Option Issue → Bool
is_live config (some p) (some i) =
    config.enabled && not p.muted && is_none p.orphaned_at && status_eq i.status unresolved
is_live config _ _ = false

abbrev pub sent_within : Timestamp → ℕ → Option Timestamp → Bool
sent_within now seconds none = false
sent_within now seconds (some sent) = ltb now (sent + from_secs seconds)

unfoldable pub find_project_of : Reads → Option Issue → Op (Option Project)
find_project_of r none = done none
find_project_of r (some issue) = lift (r.find_project issue.project_id)

-- The alert to save, for an alert that is new, and for one that goes on.
abbrev pub pending : AlertmanagerConfig → ActiveAlert → AlertmanagerAlert → ActiveAlert
pending config saved alert = record saved {
  last_sent_at = none;
  endpoint = endpoint config;
  alert = alert;
}

abbrev pub continued : AlertmanagerConfig → ActiveAlert → AlertmanagerAlert → ActiveAlert
continued config saved alert =
    pending config saved (record alert { starts_at = saved.alert.starts_at })

unfoldable pub identity_changed : AlertmanagerConfig → ActiveAlert → AlertmanagerAlert → Bool
unfolding same_map endpoint
identity_changed config saved alert =
    not (str_eq saved.endpoint (endpoint config)) || not (same_map saved.alert.labels alert.labels)

-- The test of the early return: the alert was sent within the interval, and outlasts the next one.
unfoldable pub is_leased :
    Timestamp → AlertmanagerConfig → ActiveAlert → AlertmanagerAlert → ℕ → Bool
unfolding identity_changed
is_leased now config saved alert seconds =
    not (identity_changed config saved alert)
    && sent_within now seconds saved.last_sent_at
    && ltb (now + from_secs seconds) saved.alert.ends_at

unfoldable pub resend :
    Timestamp → AlertmanagerConfig → ActiveAlert → AlertmanagerAlert → Op (Unit {0})
unfolding identity_changed resolve publish
resend now config saved alert =
    if identity_changed config saved alert
    then (resolve now saved >>> λ resolved. publish now (pending config saved alert))
    else publish now (continued config saved alert)

-- The rest of `reconcile` for an issue that is live, whose alert is `saved`.
unfoldable pub renew :
    Reads → AlertmanagerConfig → ActiveAlert → AlertmanagerAlert → ℕ → Op (Unit {0})
unfolding is_leased resend
renew r config saved alert seconds =
    if is_leased r.now config saved alert seconds then done tt else resend r.now config saved alert

unfoldable pub reconcile_live :
    Reads → AlertmanagerConfig → Str → ActiveAlert → Option Project → Option Issue → Op (Unit {0})
unfolding current_alert renew
reconcile_live r config org saved (some project) (some issue) =
    run (current_alert r config org project issue saved.trigger) >>> λ rendered.
    renew r config saved rendered.0 rendered.1
reconcile_live r config org saved _ _ =
    lift (err (internal (codes "live alert has no issue or project")))

unfoldable pub reconcile : Reads → AlertmanagerConfig → Str → ActiveAlert → Op (Unit {0})
unfolding is_live find_project_of resolve remove_alert reconcile_live
reconcile r config org saved = lift (r.find_issue saved.issue_id) >>> λ issue.
    find_project_of r issue >>> λ project.
    if is_live config project issue
    then reconcile_live r config org saved project issue
    else (resolve r.now saved >>> λ resolved. remove_alert saved.issue_id)

-- One entry of the loop of `refresh`: an error of `reconcile` is logged, and the loop goes on.
abbrev pub logged : World → Run (Unit {0}) → World × Run (Unit {0})
logged w none = (w, none)
logged w (some outcome) = (w, some (ok tt))

unfoldable pub refresh_entry : Reads → AlertmanagerConfig → Str → Option ActiveAlert → Op (Unit {0})
unfolding reconcile
refresh_entry r config org none w = done tt w
refresh_entry r config org (some saved) w =
    logged (reconcile r config org saved w).0 (reconcile r config org saved w).1

-- The loop, over the issue ids that the pages of `active` list.
unfoldable pub refresh_entries : Reads → AlertmanagerConfig → Str → List Uuid → Op (Unit {0})
unfolding find_alert refresh_entry
refresh_entries r config org [] = done tt
refresh_entries r config org (issue_id ∷ active) = find_alert issue_id >>> λ found.
    refresh_entry r config org found >>> λ entry. refresh_entries r config org active

unfoldable pub refresh : Reads → List Uuid → Op (Unit {0})
unfolding refresh_entries
refresh r active =
    if not r.notifications_alertmanager_enabled
    then done tt
    else (lift r.config >>> λ config.
        lift r.org_name >>> λ org. refresh_entries r config org active)
