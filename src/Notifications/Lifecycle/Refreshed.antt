-- ===== src/Notifications/Lifecycle/Refreshed.antt =====
-- src/alertmanager.rs: `refresh`, by what each of its steps leaves.
use soika.Base.{
  ℕ, ◌≡◌, refl, sym, ap, ◌∙◌, arith, Bool, true, false, not, ◌||◌, Option, none, some, List, [],
  ◌∷◌, inr,
}
use soika.Base.Text.{Str, str_eq}
use soika.Base.Result.{ok, err}
use soika.Issues.Types.{Uuid, Timestamp, Issue}
use soika.Access.Projects.{Project}
use soika.Notifications.Config.{AlertmanagerConfig, Run}
use soika.Notifications.Alert.{AlertmanagerAlert, ActiveAlert, endpoint}
use soika.Notifications.Lifecycle.{
  identity, World, ◌>>>◌, run, lift, done, find_alert, write_row, remove_alert, resolve, publish,
  same_map, same_identity,
}
use soika.Notifications.Lifecycle.Steps.{
  Reads, current_alert, is_live, find_project_of, pending, continued, identity_changed, is_leased,
  resend, renew, reconcile_live, reconcile, refresh_entry, refresh_entries, refresh, logged,
}
use soika.Notifications.Lifecycle.Tracking.{
  IsSound, Post, Triple, Triple-then, run-Triple, if-Triple, IsSaved, IsResolved,
  resolve-IsResolved, IsReplaceable,
}
use soika.Notifications.Lifecycle.Kept.{
  sound, saved_row, resolved-IsReplaceable, publish-Triple, find_alert-Triple, write_with-none,
}

not_or : (a b : Bool) → (not a || not b) ≡ false → (a ≡ true) × (b ≡ true)
not_or a b h = ground arith

kept :
    (config : AlertmanagerConfig) (saved : ActiveAlert) (alert : AlertmanagerAlert)
    → identity_changed config saved alert ≡ false
    → same_identity (identity saved) (identity (continued config saved alert)) ≡ true
unfolding same_identity identity_changed
kept config saved alert same =
    let (a, b) =
      not_or (str_eq saved.endpoint (endpoint config)) (same_map saved.alert.labels alert.labels)
        same in
    rw (a, b) refl

continued-IsReplaceable :
    (config : AlertmanagerConfig) (saved : ActiveAlert) (alert : AlertmanagerAlert) (w : World)
    → identity_changed config saved alert ≡ false
    → IsSaved saved w
    → IsReplaceable (identity (continued config saved alert)) saved.issue_id w
continued-IsReplaceable config saved alert w same h = (
  h.0,
  λ old e. inr (
      ap (λ c. same_identity (identity c) (identity (continued config saved alert)))
        (sym (saved_row saved old w h e))
      ∙ kept config saved alert same),
)

resend-Triple :
    (now : Timestamp) (config : AlertmanagerConfig) (saved : ActiveAlert)
    (alert : AlertmanagerAlert)
    → Triple (IsSaved saved) (resend now config saved alert) (λ u. IsSound)
unfolding resend
resend-Triple now config saved alert =
    if-Triple (IsSaved saved) (λ u. IsSound) (identity_changed config saved alert)
      (resolve now saved >>> λ resolved. publish now (pending config saved alert))
      (publish now (continued config saved alert))
      (λ changed.
        Triple-then (λ u. IsResolved saved) (λ u. IsSound) (resolve now saved)
          (λ resolved. publish now (pending config saved alert)) (resolve-IsResolved now saved)
          (λ resolved w h.
            publish-Triple now (pending config saved alert) w
              (resolved-IsReplaceable saved (pending config saved alert) w refl h)))
      (λ same w h.
        publish-Triple now (continued config saved alert) w
          (continued-IsReplaceable config saved alert w same h))

renew-Triple :
    (r : Reads) (config : AlertmanagerConfig) (saved : ActiveAlert) (alert : AlertmanagerAlert)
    (seconds : ℕ)
    → Triple (IsSaved saved) (renew r config saved alert seconds) (λ u. IsSound)
unfolding renew
renew-Triple r config saved alert seconds =
    if-Triple (IsSaved saved) (λ u. IsSound) (is_leased r.now config saved alert seconds) (done tt)
      (resend r.now config saved alert) (λ leased w h. h.0)
      (λ due. resend-Triple r.now config saved alert)

reconcile_live-Triple :
    (r : Reads) (config : AlertmanagerConfig) (org : Str) (saved : ActiveAlert)
    (project : Option Project) (issue : Option Issue)
    → Triple (IsSaved saved) (reconcile_live r config org saved project issue) (λ u. IsSound)
unfolding reconcile_live
reconcile_live-Triple r config org saved (some project) (some issue) =
    Triple-then (λ x. IsSaved saved) (λ u. IsSound)
      (run (current_alert r config org project issue saved.trigger)) _
      (run-Triple (IsSaved saved) (current_alert r config org project issue saved.trigger)
        (λ w h. h.0))
      (λ (alert, seconds). renew-Triple r config saved alert seconds)
reconcile_live-Triple r config org saved (some project) none = λ w h. h.0
reconcile_live-Triple r config org saved none issue = λ w h. h.0

find_project_of-Triple :
    (r : Reads) (a : ActiveAlert) (issue : Option Issue)
    → Triple (IsSaved a) (find_project_of r issue) (λ p. IsSaved a)
unfolding find_project_of
find_project_of-Triple r a none w h = h
find_project_of-Triple r a (some issue) w h =
    run-Triple (IsSaved a) (some (r.find_project issue.project_id)) (λ w h. h.0) w h

remove-Triple : (a : ActiveAlert) → Triple (IsResolved a) (remove_alert a.issue_id) (λ u. IsSound)
unfolding remove_alert write_row
remove-Triple a w h = write_with-none a (w.writes 0) w h

reconcile-Triple :
    (r : Reads) (config : AlertmanagerConfig) (org : Str) (saved : ActiveAlert)
    → Triple (IsSaved saved) (reconcile r config org saved) (λ u. IsSound)
unfolding reconcile
reconcile-Triple r config org saved =
    Triple-then (λ i. IsSaved saved) (λ u. IsSound) (lift (r.find_issue saved.issue_id)) _
      (run-Triple (IsSaved saved) (some (r.find_issue saved.issue_id)) (λ w h. h.0))
      (λ issue.
        Triple-then (λ p. IsSaved saved) (λ u. IsSound) (find_project_of r issue) _
          (find_project_of-Triple r saved issue)
          (λ project.
            if-Triple (IsSaved saved) (λ u. IsSound) (is_live config project issue) _ _
              (λ live. reconcile_live-Triple r config org saved project issue)
              (λ dead.
                Triple-then (λ u. IsResolved saved) (λ u. IsSound) (resolve r.now saved) _
                  (resolve-IsResolved r.now saved) (λ resolved. remove-Triple saved))))

logged-Post :
    (w : World) (r : Run (Unit {0}))
    → Post (λ u. IsSound) w r
    → Post (λ u. IsSound) (logged w r).0 (logged w r).1
logged-Post w none h = h
logged-Post w (some (err e)) h = h
logged-Post w (some (ok u)) h = h

refresh_entries-Triple :
    (r : Reads) (config : AlertmanagerConfig) (org : Str) (active : List Uuid)
    → Triple IsSound (refresh_entries r config org active) (λ u. IsSound)
unfolding refresh_entries refresh_entry
refresh_entries-Triple r config org [] = λ w s. s
refresh_entries-Triple r config org (issue_id ∷ active) =
    Triple-then (λ old w. IsSound w × (w.rows issue_id ≡ old)) (λ u. IsSound) (find_alert issue_id)
      (λ found. refresh_entry r config org found >>> λ e. refresh_entries r config org active)
      (find_alert-Triple issue_id)
      (λ found.
        Triple-then (λ u. IsSound) (λ u. IsSound) (refresh_entry r config org found)
          (λ e. refresh_entries r config org active) (entry found)
          (λ e. refresh_entries-Triple r config org active))
  where
    entry :
        (found : Option ActiveAlert)
        → Triple
            (λ w. IsSound w × (w.rows issue_id ≡ found))
            (refresh_entry r config org found)
            (λ u. IsSound)
    entry none w (s, row) = s
    entry (some saved) w (s, row) =
        logged-Post (reconcile r config org saved w).0 (reconcile r config org saved w).1
          (reconcile-Triple r config org saved w (s, ap w.rows (s.0 issue_id saved row) ∙ row))

pub refresh-Triple :
    (r : Reads) (active : List Uuid) → Triple IsSound (refresh r active) (λ u. IsSound)
unfolding refresh
refresh-Triple r active =
    if-Triple IsSound (λ u. IsSound) (not r.notifications_alertmanager_enabled) (done tt) _
      (λ off w s. s)
      (λ on.
        Triple-then (λ c. IsSound) (λ u. IsSound) (lift r.config) _
          (run-Triple IsSound (some r.config) sound)
          (λ config.
            Triple-then (λ o. IsSound) (λ u. IsSound) (lift r.org_name) _
              (run-Triple IsSound (some r.org_name) sound)
              (λ org. refresh_entries-Triple r config org active)))
