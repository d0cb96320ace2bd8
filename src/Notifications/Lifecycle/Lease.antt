-- ===== src/Notifications/Lifecycle/Lease.antt =====
-- src/alertmanager.rs: how long an alert lasts after a successful reconciliation.
use soika.Base.{
  ℕ, ◌+◌, ◌<◌, ◌≡◌, ◌⊎◌, sym, ap, subst, ◌∙◌, arith, Bool, true, false, not, ◌&&◌, Option, none,
  some, if◌then◌else◌, ltb, ltb→lt, inl, inr,
}
use soika.Base.Text.{Str}
use soika.Base.Time.{from_secs}
use soika.Base.Result.{Result, ok, err}
use soika.Errors.{Error}
use soika.Issues.Types.{Uuid, Timestamp, Issue}
use soika.Access.Projects.{Project}
use soika.Notifications.Config.{AlertmanagerConfig, Run}
use soika.Notifications.Alert.{
  AlertmanagerAlert, ActiveAlert, alert_ttl, variables, project_config, render_alert,
}
use soika.Notifications.Lifecycle.{
  World, Op, ◌>>>◌, write_row, write_with, save_alert, remove_alert, send, resolve, publish,
}
use soika.Notifications.Lifecycle.Steps.{
  Reads, or, current_alert, is_live, find_project_of, sent_within, pending, continued,
  identity_changed, is_leased, resend, renew, reconcile_live, reconcile,
}
use soika.Notifications.Lifecycle.Tracking.{put_here}
use soika.Notifications.Lifecycle.Gives.{
  Always, Gives, Yields, Yields-value, bind-Yields, gives_value, if-Gives, run-Gives, stop_or-Gives,
  then-Always, weaken-Gives,
}

abbrev HasRow : Uuid → Option ActiveAlert → World → Type 0
HasRow issue_id row w = w.rows issue_id ≡ row

write_with-Gives :
    (issue_id : Uuid) (row : Option ActiveAlert) (o : Result Error (Unit {0})) (w : World)
    → Gives (HasRow issue_id row) (write_with issue_id row o w).0 (write_with issue_id row o w).1
unfolding write_with
write_with-Gives issue_id row (err e) w = tt
write_with-Gives issue_id row (ok u) w = put_here issue_id row w.rows

save_alert-Always : (p : ActiveAlert) → Always (HasRow p.issue_id (some p)) (save_alert p)
unfolding save_alert write_row
save_alert-Always p w = write_with-Gives p.issue_id (some p) (w.writes 0) w

remove_alert-Always : (issue_id : Uuid) → Always (HasRow issue_id none) (remove_alert issue_id)
unfolding remove_alert write_row
remove_alert-Always issue_id w = write_with-Gives issue_id none (w.writes 0) w

publish-Always :
    (now : Timestamp) (p : ActiveAlert)
    → Always (HasRow p.issue_id (some (record p { last_sent_at = some now }))) (publish now p)
unfolding publish
publish-Always now p =
    then-Always (HasRow p.issue_id (some (record p { last_sent_at = some now }))) (save_alert p)
      (λ saved.
        send now p.endpoint p.alert >>> λ sent. save_alert (record p { last_sent_at = some now }))
      (λ saved.
        then-Always (HasRow p.issue_id (some (record p { last_sent_at = some now })))
          (send now p.endpoint p.alert) (λ sent. save_alert (record p { last_sent_at = some now }))
          (λ sent. save_alert-Always (record p { last_sent_at = some now })))

-- The issue's alert is gone from the table, or it lasts beyond the time.
abbrev pub Lasts : Uuid → Timestamp → World → Type 0
Lasts issue_id until w =
    (w.rows issue_id ≡ none)
    ⊎ ((a : ActiveAlert) × (w.rows issue_id ≡ some a) × (until < a.alert.ends_at))

publish-Lasts :
    (now until : Timestamp) (p : ActiveAlert)
    → until < p.alert.ends_at
    → Always (Lasts p.issue_id until) (publish now p)
publish-Lasts now until p h w =
    weaken-Gives (HasRow p.issue_id (some (record p { last_sent_at = some now })))
      (Lasts p.issue_id until) (publish now p w).0 (publish now p w).1
      (λ w e. inr (record p { last_sent_at = some now }, e, h)) (publish-Always now p w)

resend-Lasts :
    (now until : Timestamp) (config : AlertmanagerConfig) (saved : ActiveAlert)
    (alert : AlertmanagerAlert)
    → until < alert.ends_at
    → Always (Lasts saved.issue_id until) (resend now config saved alert)
unfolding resend
resend-Lasts now until config saved alert h = either (identity_changed config saved alert)
  where
    either :
        (b : Bool)
        → Always (Lasts saved.issue_id until) (
            if b
            then (resolve now saved >>> λ resolved. publish now (pending config saved alert))
            else publish now (continued config saved alert))
    either true =
        then-Always (Lasts saved.issue_id until) (resolve now saved)
          (λ resolved. publish now (pending config saved alert))
          (λ resolved. publish-Lasts now until (pending config saved alert) h)
    either false = publish-Lasts now until (continued config saved alert) h

last_test : (a b c : Bool) → ((a && b) && c) ≡ true → c ≡ true
last_test a b c h = ground arith

longer : (now seconds : ℕ) → now + from_secs seconds < now + from_secs (alert_ttl seconds)
unfolding alert_ttl
longer now seconds = omega arith

renew-Lasts :
    (r : Reads) (config : AlertmanagerConfig) (saved : ActiveAlert) (alert : AlertmanagerAlert)
    (seconds : ℕ) (w : World)
    → w.rows saved.issue_id ≡ some saved
    → alert.ends_at ≡ r.now + from_secs (alert_ttl seconds)
    → Gives
        (Lasts saved.issue_id (r.now + from_secs seconds))
        (renew r config saved alert seconds w).0
        (renew r config saved alert seconds w).1
unfolding renew is_leased
renew-Lasts r config saved alert seconds w row ends =
    let still : is_leased r.now config saved alert seconds ≡ true
        → r.now + from_secs seconds < saved.alert.ends_at =
      λ leased. ltb→lt (r.now + from_secs seconds) saved.alert.ends_at (
        last_test (not (identity_changed config saved alert))
          (sent_within r.now seconds saved.last_sent_at)
          (ltb (r.now + from_secs seconds) saved.alert.ends_at) leased) in
    let beyond : r.now + from_secs seconds < alert.ends_at =
      subst (λ t. r.now + from_secs seconds < t) (sym ends) (longer r.now seconds) in
    stop_or-Gives (Lasts saved.issue_id (r.now + from_secs seconds))
      (is_leased r.now config saved alert seconds) (resend r.now config saved alert) w
      (λ leased. inr (saved, row, still leased))
      (λ due. resend-Lasts r.now (r.now + from_secs seconds) config saved alert beyond w)

-- The value of a run, or else a default.
abbrev value_or : {A : Type 0} → A → Run A → A
value_or d (some (ok a)) = a
value_or d _ = d

-- The alert that is rendered ends a time to live after now.
abbrev EndsLater : Reads → ℕ → AlertmanagerAlert × ℕ → Type 0
EndsLater r seconds rendered =
    (rendered.1 ≡ seconds) × (rendered.0.ends_at ≡ r.now + from_secs (alert_ttl seconds))

current_alert-EndsLater :
    (r : Reads) (config : AlertmanagerConfig) (org : Str) (project : Project) (issue : Issue)
    (trigger : Str) (seconds : ℕ)
    → r.interval project.id ≡ ok seconds
    → Yields (EndsLater r seconds) (current_alert r config org project issue trigger)
unfolding current_alert
current_alert-EndsLater r config org project issue trigger seconds e =
    bind-Yields (EndsLater r seconds) (some r.effective_names) _ (λ names named.
      bind-Yields (EndsLater r seconds) (some (r.severity (some project.id))) _ (λ own owned.
        bind-Yields (EndsLater r seconds) (some (r.severity none)) _ (λ default defaulted.
          bind-Yields (EndsLater r seconds)
            (render_alert
              (project_config (r.project_labels project.slug) names (or own default) config)
              (variables r.show r.base_url org project issue trigger) r.now)
            _
            (λ alert rendered.
              bind-Yields (EndsLater r seconds) (some (r.interval project.id))
                (λ interval. some (
                  ok (record alert { ends_at = r.now + from_secs (alert_ttl interval) }, interval)))
                (λ interval read.
                  let same : interval ≡ seconds =
                    sym (ap (value_or seconds) read) ∙ ap (λ x. value_or seconds (some x)) e in
                  (same, ap (λ s. r.now + from_secs (alert_ttl s)) same))))))

reconcile_live-Lasts :
    (r : Reads) (config : AlertmanagerConfig) (org : Str) (saved : ActiveAlert)
    (project : Option Project) (issue : Option Issue) (seconds : ℕ) (w : World)
    → ((id : Uuid) → r.interval id ≡ ok seconds)
    → w.rows saved.issue_id ≡ some saved
    → Gives
        (Lasts saved.issue_id (r.now + from_secs seconds))
        (reconcile_live r config org saved project issue w).0
        (reconcile_live r config org saved project issue w).1
unfolding reconcile_live
reconcile_live-Lasts r config org saved (some project) (some issue) seconds w every row =
    run-Gives (Lasts saved.issue_id (r.now + from_secs seconds))
      (current_alert r config org project issue saved.trigger)
      (λ rendered. renew r config saved rendered.0 rendered.1) w
      (λ rendered e.
        let facts =
          Yields-value (EndsLater r seconds)
            (current_alert r config org project issue saved.trigger) rendered
            (current_alert-EndsLater r config org project issue saved.trigger seconds
              (every project.id))
            e in
        let renewed =
          renew-Lasts r config saved rendered.0 rendered.1 w row
            (facts.1 ∙ ap (λ s. r.now + from_secs (alert_ttl s)) (sym facts.0)) in
        subst
          (λ s.
            Gives (Lasts saved.issue_id (r.now + from_secs s))
              (renew r config saved rendered.0 rendered.1 w).0
              (renew r config saved rendered.0 rendered.1 w).1)
          facts.0 renewed)
reconcile_live-Lasts r config org saved none issue seconds w every row = tt
reconcile_live-Lasts r config org saved (some project) none seconds w every row = tt

-- `reconcile`, once the issue and its project are read.
abbrev reconcile_read :
    Reads → AlertmanagerConfig → Str → ActiveAlert → Option Issue → Option Project → Op (Unit {0})
reconcile_read r config org saved issue project =
    if is_live config project issue
    then reconcile_live r config org saved project issue
    else (resolve r.now saved >>> λ resolved. remove_alert saved.issue_id)

reconcile_read-Lasts :
    (r : Reads) (config : AlertmanagerConfig) (org : Str) (saved : ActiveAlert)
    (issue : Option Issue) (project : Option Project) (seconds : ℕ) (w : World)
    → ((id : Uuid) → r.interval id ≡ ok seconds)
    → w.rows saved.issue_id ≡ some saved
    → Gives
        (Lasts saved.issue_id (r.now + from_secs seconds))
        (reconcile_read r config org saved issue project w).0
        (reconcile_read r config org saved issue project w).1
reconcile_read-Lasts r config org saved issue project seconds w every row =
    let Q : World → Type 0 = Lasts saved.issue_id (r.now + from_secs seconds) in
    if-Gives Q (is_live config project issue) (reconcile_live r config org saved project issue)
      (resolve r.now saved >>> λ resolved. remove_alert saved.issue_id) w
      (reconcile_live-Lasts r config org saved project issue seconds w every row)
      (then-Always Q (resolve r.now saved) (λ resolved. remove_alert saved.issue_id)
        (λ resolved w.
          weaken-Gives (HasRow saved.issue_id none) Q (remove_alert saved.issue_id w).0
            (remove_alert saved.issue_id w).1 (λ w e. inl e) (remove_alert-Always saved.issue_id w))
        w)

read-Lasts :
    (r : Reads) (config : AlertmanagerConfig) (org : Str) (saved : ActiveAlert)
    (issue : Option Issue) (seconds : ℕ) (w : World)
    → ((id : Uuid) → r.interval id ≡ ok seconds)
    → w.rows saved.issue_id ≡ some saved
    → Gives
        (Lasts saved.issue_id (r.now + from_secs seconds))
        ((find_project_of r issue >>> reconcile_read r config org saved issue) w).0
        ((find_project_of r issue >>> reconcile_read r config org saved issue) w).1
unfolding find_project_of
read-Lasts r config org saved none seconds w every row =
    reconcile_read-Lasts r config org saved none none seconds w every row
read-Lasts r config org saved (some issue) seconds w every row =
    run-Gives (Lasts saved.issue_id (r.now + from_secs seconds))
      (some (r.find_project issue.project_id)) (reconcile_read r config org saved (some issue)) w
      (λ project found.
        reconcile_read-Lasts r config org saved (some issue) project seconds w every row)

-- If every project's alerts are to be refreshed every `seconds` seconds and the table holds the
-- alert that `reconcile` is given, then after `reconcile` succeeded the issue has no alert in the
-- table, or one that ends later than `seconds` seconds from now.
pub reconcile-Lasts :
    (r : Reads) (config : AlertmanagerConfig) (org : Str) (saved : ActiveAlert) (seconds : ℕ)
    (w : World)
    → ((id : Uuid) → r.interval id ≡ ok seconds)
    → w.rows saved.issue_id ≡ some saved
    → (reconcile r config org saved w).1 ≡ some (ok tt)
    → Lasts saved.issue_id (r.now + from_secs seconds) (reconcile r config org saved w).0
unfolding reconcile
reconcile-Lasts r config org saved seconds w every row succeeds =
    let Q : World → Type 0 = Lasts saved.issue_id (r.now + from_secs seconds) in
    gives_value Q (reconcile r config org saved w).0 (reconcile r config org saved w).1
      (run-Gives Q (some (r.find_issue saved.issue_id))
        (λ issue. find_project_of r issue >>> reconcile_read r config org saved issue) w
        (λ issue found. read-Lasts r config org saved issue seconds w every row))
      succeeds
