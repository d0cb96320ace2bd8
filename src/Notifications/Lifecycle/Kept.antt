-- ===== src/Notifications/Lifecycle/Kept.antt =====
-- src/alertmanager.rs: `notify`, by what each of their steps leaves.
use soika.Base.{
  ◌≡◌, refl, sym, ap, ◌∙◌, arith, true, false, not, Option, none, some, ◌==◌, Bool-cases, inl, inr,
  ==_iff,
}
use soika.Base.Text.{Str}
use soika.Base.Result.{Result, ok, err}
use soika.Errors.{Error}
use soika.Issues.Types.{Uuid, Timestamp, Issue}
use soika.Access.Projects.{Project}
use soika.Notifications.Config.{Run}
use soika.Notifications.Alert.{ActiveAlert, endpoint}
use soika.Notifications.Lifecycle.{
  identity, World, ◌>>>◌, run, lift, done, find_with, find_alert, write_row, write_with, save_alert,
  send, resolve, publish, same_identity,
}
use soika.Notifications.Lifecycle.Steps.{Reads, current_alert, resolve_old, notify}
use soika.Notifications.Lifecycle.Maps.{same_identity_refl}
use soika.Notifications.Lifecycle.Tracking.{
  fires, IsSound, Post, Triple, Triple-then, run-Triple, if-Triple, fires_cong, IsSaved, IsResolved,
  send-IsSaved, resolve-IsResolved, IsReplaceable, put_here, put_there, put-IsSound,
}

abbrev pub sound : (w : World) → IsSound w → IsSound w
sound w s = s

write_with-IsSaved :
    (p : ActiveAlert) (o : Result Error (Unit {0})) (w : World)
    → IsReplaceable (identity p) p.issue_id w
    → Post
        (λ u. IsSaved p)
        (write_with p.issue_id (some p) o w).0
        (write_with p.issue_id (some p) o w).1
unfolding write_with
write_with-IsSaved p (err e) w (s, h) = s
write_with-IsSaved p (ok u) w h = (put-IsSound p w h, put_here p.issue_id (some p) w.rows)

save-IsSaved :
    (p : ActiveAlert)
    → Triple (IsReplaceable (identity p) p.issue_id) (save_alert p) (λ u. IsSaved p)
unfolding save_alert write_row
save-IsSaved p w h = write_with-IsSaved p (w.writes 0) w h

pub saved_row :
    (p old : ActiveAlert) (w : World) → IsSaved p w → w.rows p.issue_id ≡ some old → p ≡ old
saved_row p old w (s, row) e = ground (arith, sym row ∙ e)

pub write_with-none :
    (a : ActiveAlert) (o : Result Error (Unit {0})) (w : World)
    → IsResolved a w
    → Post (λ u. IsSound) (write_with a.issue_id none o w).0 (write_with a.issue_id none o w).1
unfolding write_with
write_with-none a (err e) w (((keyed, tracked), row), silent) = (keyed, tracked)
write_with-none a (ok u) w (((keyed, tracked), row), silent) = (
  λ id b e. elim (Bool-cases (id == a.issue_id)) [
    | inl here ↦ ground (arith, here, e)
    | inr there ↦ keyed id b (sym (put_there a.issue_id id none w.rows there) ∙ e)
  ],
  λ i f.
      let (id, b, at, same) = tracked i f in
      elim (Bool-cases (id == a.issue_id)) [
        | inr there ↦ (id, b, put_there a.issue_id id none w.rows there ∙ at, same)
        | inl here ↦
            let there : w.rows a.issue_id ≡ some b =
              ap w.rows (sym ((==_iff id a.issue_id).0 here)) ∙ at in
            let one : a ≡ b = saved_row a b w ((keyed, tracked), row) there in
            let no : true ≡ false =
              sym f
              ∙ fires_cong i (identity b) w.received same
              ∙ ap (λ c. fires (identity c) w.received) (sym one)
              ∙ silent in
            cc
      ],
)

weaken :
    (p : ActiveAlert) (w : World) (r : Run (Unit {0}))
    → Post (λ u. IsSaved p) w r
    → Post (λ u. IsSound) w r
weaken p w none h = h
weaken p w (some (err e)) h = h
weaken p w (some (ok u)) (s, row) = s

save-IsSound :
    (p : ActiveAlert) → Triple (IsReplaceable (identity p) p.issue_id) (save_alert p) (λ u. IsSound)
save-IsSound p w h = weaken p (save_alert p w).0 (save_alert p w).1 (save-IsSaved p w h)

pub publish-Triple :
    (now : Timestamp) (p : ActiveAlert)
    → Triple (IsReplaceable (identity p) p.issue_id) (publish now p) (λ u. IsSound)
unfolding publish
publish-Triple now p =
    Triple-then (λ u. IsSaved p) (λ u. IsSound) (save_alert p) _ (save-IsSaved p)
      (λ saved.
        Triple-then (λ u. IsSaved p) (λ u. IsSound) (send now p.endpoint p.alert) _
          (send-IsSaved now p)
          (λ sent w h.
            save-IsSound (record p { last_sent_at = some now }) w
              (
                h.0,
                λ old e. inr (
                    ap (λ c. same_identity (identity c) (identity p)) (sym (saved_row p old w h e))
                    ∙ same_identity_refl (identity p)),
              )))

-- What `resolve` leaves lets the row be replaced by any.
pub resolved-IsReplaceable :
    (a p : ActiveAlert) (w : World)
    → a.issue_id ≡ p.issue_id
    → IsResolved a w
    → IsReplaceable (identity p) p.issue_id w
resolved-IsReplaceable a p w same_issue ((s, row), silent) = (
  s,
  λ old e.
      let one : a ≡ old = saved_row a old w (s, row) (ap w.rows same_issue ∙ e) in
      inl (ap (λ c. fires (identity c) w.received) (sym one) ∙ silent),
)

resolve_old-Triple :
    (now : Timestamp) (p : ActiveAlert) (old : Option ActiveAlert)
    → Triple
        (λ w. IsSound w × (w.rows p.issue_id ≡ old))
        (resolve_old now old)
        (λ u. IsReplaceable (identity p) p.issue_id)
unfolding resolve_old
resolve_old-Triple now p none w (s, e) = (s, λ old f. ground (arith, sym e ∙ f))
resolve_old-Triple now p (some a) w (s, e) =
    let key : a.issue_id ≡ p.issue_id = s.0 p.issue_id a e in
    replaceable (resolve now a w).0 (resolve now a w).1 key
      (resolve-IsResolved now a w (s, ap w.rows key ∙ e))
  where
    replaceable :
        (w' : World) (r : Run (Unit {0}))
        → a.issue_id ≡ p.issue_id
        → Post (λ u. IsResolved a) w' r
        → Post (λ u. IsReplaceable (identity p) p.issue_id) w' r
    replaceable w' none key h = h
    replaceable w' (some (err e)) key h = h
    replaceable w' (some (ok u)) key h = resolved-IsReplaceable a p w' key h

find_with-Triple :
    (issue_id : Uuid) (o : Result Error (Unit {0}))
    → Triple IsSound (find_with issue_id o) (λ old w. IsSound w × (w.rows issue_id ≡ old))
unfolding find_with
find_with-Triple issue_id (err e) w s = s
find_with-Triple issue_id (ok u) w s = (s, refl)

pub find_alert-Triple :
    (issue_id : Uuid)
    → Triple IsSound (find_alert issue_id) (λ old w. IsSound w × (w.rows issue_id ≡ old))
unfolding find_alert
find_alert-Triple issue_id w s = find_with-Triple issue_id (w.finds 0) w s

replace-Triple :
    (now : Timestamp) (p : ActiveAlert)
    → Triple IsSound
        (find_alert p.issue_id >>> λ old. resolve_old now old >>> λ resolved. publish now p)
        (λ u. IsSound)
replace-Triple now p =
    Triple-then (λ old w. IsSound w × (w.rows p.issue_id ≡ old)) (λ u. IsSound)
      (find_alert p.issue_id) _ (find_alert-Triple p.issue_id)
      (λ old.
        Triple-then (λ u. IsReplaceable (identity p) p.issue_id) (λ u. IsSound)
          (resolve_old now old) _ (resolve_old-Triple now p old) (λ resolved. publish-Triple now p))

pub notify-Triple :
    (r : Reads) (project : Project) (issue : Issue) (trigger : Str)
    → Triple IsSound (notify r project issue trigger) (λ u. IsSound)
unfolding notify
notify-Triple r project issue trigger =
    if-Triple IsSound (λ u. IsSound) (not r.notifications_alertmanager_enabled) (done tt) _
      (λ off w s. s)
      (λ on.
        Triple-then (λ c. IsSound) (λ u. IsSound) (lift r.config) _
          (run-Triple IsSound (some r.config) sound)
          (λ config.
            if-Triple IsSound (λ u. IsSound) (not config.enabled) (done tt) _ (λ off w s. s)
              (λ enabled.
                Triple-then (λ o. IsSound) (λ u. IsSound) (lift r.org_name) _
                  (run-Triple IsSound (some r.org_name) sound)
                  (λ org.
                    Triple-then (λ x. IsSound) (λ u. IsSound)
                      (run (current_alert r config org project issue trigger)) _
                      (run-Triple IsSound (current_alert r config org project issue trigger) sound)
                      (λ rendered. replace-Triple r.now (record {
                        last_sent_at = none;
                        issue_id = issue.id;
                        endpoint = endpoint config;
                        trigger = trigger;
                        alert = rendered.0;
                      }))))))
