-- ===== src/Notifications/Dispatch/Reached.antt =====
-- src/notify.rs: whom a notification reaches.
use soika.Base.{
  ◌≡◌, ◌≢◌, ◌⊎◌, refl, sym, subst, false, Option, none, if◌then◌else◌, ap, ◌∙◌, true, some, List,
  [], ◌∷◌, ◌++◌, map, Bool-cases, inl, inr,
}
use soika.Base.Text.{Str, codes, str_eq, trim_end}
use soika.Base.Dict.{lookup, insert}
use soika.Base.Result.{Result, ok}
use soika.Errors.{Error}
use soika.Issues.Types.{Uuid, Issue, IssueStatus, unresolved, resolved, muted, status_eq}
use soika.Notifications.Alert.{Show}
use soika.Access.Projects.{Project}
use soika.Access.TeamRole.{TeamRole}
use soika.Access.User.{User}
use soika.Notifications.Lifecycle.{World}
use soika.Notifications.Dispatch.{
  Trigger, new_issue, regression, trigger_text, WebhookAlert, WebhookPayload, with_level,
  starts_at_of, user_opted_in, Outbox, Channels, recipients, build_webhook_payload, send_webhook,
  post_if_enabled, send_mails, mail_if_enabled, deliver, is_suppressed, dispatch,
}

append_assoc : {A : Type 0} (a b c : List A) → (a ++ b) ++ c ≡ a ++ (b ++ c)
append_assoc [] b c = refl
append_assoc (x ∷ a) b c = ap (λ l. x ∷ l) (append_assoc a b c)

append_nil : {A : Type 0} (l : List A) → l ++ [] ≡ l
append_nil [] = refl
append_nil (x ∷ l) = ap (λ r. x ∷ r) (append_nil l)

send_mails_all :
    (email : Str → Result Error Str) (text : Str → Str) (to : List Str) (out : Outbox)
    → ((a : Str) → email a ≡ ok (text a))
    → send_mails email to out ≡ record out { mails = out.mails ++ map (λ a. (a, text a)) to }
unfolding send_mails
send_mails_all email text [] out h = ap (λ m. record out { mails = m }) (sym (append_nil out.mails))
send_mails_all email text (a ∷ to) out h =
    let next : Outbox = record out { mails = out.mails ++ ((a, text a) ∷ []) } in
    rw (send_mails, h a)
      (send_mails_all email text to next h
        ∙ ap (λ m. record out { mails = m })
            (append_assoc out.mails ((a, text a) ∷ []) (map (λ b. (b, text b)) to)))

-- What the payload of a webhook says of its issue: one alert, under the name of the program, about
-- the issue and the project, with the level as its severity, and a link.
pub record IsAbout (show : Show) (base_url : Str) (project : Project) (issue : Issue) (text : Str)
    (payload : WebhookPayload) : Type 0 where
  pub alert : WebhookAlert
  pub alone : payload.alerts ≡ alert ∷ []
  pub name : lookup (codes "alertname") alert.labels ≡ some (codes "SoikaIssue")
  pub issue_id : lookup (codes "issue_id") alert.labels ≡ some (show.id issue.id)
  pub project_id : lookup (codes "project_id") alert.labels ≡ some (show.id project.id)
  pub severity : lookup (codes "severity") alert.labels ≡ issue.level
  pub title : lookup (codes "summary") alert.annotations ≡ some issue.title
  pub trigger : lookup (codes "trigger") alert.annotations ≡ some text
  pub link :
      alert.generator_url
      ≡ trim_end b'/' base_url
        ++ (codes "/projects/" ++ (project.slug ++ (codes "/issues/" ++ issue.short_id)))

-- The mails: one for each member who has mail turned on, in their order.
abbrev pub mails_for : (Str → Str) → List (User × TeamRole) → List (Str × Str)
mails_for text [] = []
mails_for text ((user, role) ∷ members) =
    let rest = mails_for text members in
    if user.notifications_enabled then (user.email, text user.email) ∷ rest else rest

mails_for-recipients :
    (text : Str → Str) (members : List (User × TeamRole))
    → map (λ a. (a, text a)) (recipients members) ≡ mails_for text members
unfolding recipients user_opted_in
mails_for-recipients text [] = refl
mails_for-recipients text ((user, role) ∷ members) = elim (Bool-cases user.notifications_enabled) [
  | inl on ↦ rw on (ap (λ l. (user.email, text user.email) ∷ l) (mails_for-recipients text members))
  | inr off ↦ rw off (mails_for-recipients text members)
]

-- The words for what has happened.
abbrev pub words : Trigger → Str
words new_issue = codes "new_issue"
words regression = codes "regression"

build_webhook_payload-IsAbout :
    (show : Show) (simple : Uuid → Str) (base_url : Str) (project : Project) (issue : Issue)
    (trigger : Trigger)
    → IsAbout show base_url project issue
        (words trigger)
        (build_webhook_payload show simple base_url project issue trigger)
unfolding build_webhook_payload lookup insert str_eq trigger_text
build_webhook_payload-IsAbout show simple base_url project issue trigger =
    let labels = with_level issue.level (
      insert (codes "project") project.slug (
        insert (codes "alertname") (codes "SoikaIssue") (
          (codes "project_id", show.id project.id) ∷ (codes "issue_id", show.id issue.id) ∷ []))) in
    let (name, issue_id, project_id, severity) = labelled issue.level in
    record {
      alert = record {
        status = codes "firing";
        labels = labels;
        annotations =
            (codes "summary", issue.title)
            ∷ (codes "trigger", trigger_text trigger)
            ∷ (codes "event_count", show.count issue.event_count)
            ∷ [];
        starts_at = starts_at_of trigger issue;
        ends_at = codes "0001-01-01T00:00:00Z";
        generator_url =
            trim_end b'/' base_url
            ++ (codes "/projects/" ++ (project.slug ++ (codes "/issues/" ++ issue.short_id)));
        fingerprint = simple issue.id;
      };
      alone = refl;
      name = name;
      issue_id = issue_id;
      project_id = project_id;
      severity = severity;
      title = refl;
      trigger = ap some (told trigger);
      link = refl;
    }
  where
    told : (trigger : Trigger) → trigger_text trigger ≡ words trigger
    told new_issue = refl
    told regression = refl

    labelled :
        (level : Option Str)
        → let labels = with_level level (
            insert (codes "project") project.slug (
              insert (codes "alertname") (codes "SoikaIssue") (
                (codes "project_id", show.id project.id)
                ∷ (codes "issue_id", show.id issue.id)
                ∷ []))) in
          (lookup (codes "alertname") labels ≡ some (codes "SoikaIssue"))
          × (lookup (codes "issue_id") labels ≡ some (show.id issue.id))
          × (lookup (codes "project_id") labels ≡ some (show.id project.id))
          × (lookup (codes "severity") labels ≡ level)
    labelled none = (refl, refl, refl, refl)
    labelled (some level) = (refl, refl, refl, refl)

module _ (c : Channels) (project : Project) (issue : Issue) (trigger : Trigger) (w : World)
    (out : Outbox) where
  -- One post to the address, about the issue, and one mail to each member who has mail turned on.
  pub record Announced (url : Str) (members : List (User × TeamRole)) (text : Str → Str)
      (out' : Outbox) : Type 0 where
    pub payload : WebhookPayload
    pub posted : out'.posts ≡ out.posts ++ ((url, payload) ∷ [])
    pub about : IsAbout c.reads.show c.reads.base_url project issue (words trigger) payload
    pub mailed : out'.mails ≡ out.mails ++ mails_for text members

  post_if_enabled_lem :
      (url : Str)
      → c.webhooks_enabled ≡ true
      → project.webhook_url ≡ some url
      → post_if_enabled c project issue trigger out ≡ send_webhook c project issue trigger url out
  unfolding post_if_enabled
  post_if_enabled_lem url web hook = rw (post_if_enabled, web, hook) refl

  mail_if_enabled_lem :
      (members : List (User × TeamRole)) (o : Outbox)
      → c.mailer_enabled ≡ true
      → c.members_of project.team_id ≡ ok members
      → (mail_if_enabled c project trigger o).0
        ≡ send_mails (c.email trigger) (recipients members) o
  unfolding mail_if_enabled
  mail_if_enabled_lem members o mail known = rw (mail_if_enabled, mail, known) refl

  delivered :
      (url : Str) (members : List (User × TeamRole)) (text : Str → Str)
      → c.webhooks_enabled ≡ true
      → c.mailer_enabled ≡ true
      → project.webhook_url ≡ some url
      → c.members_of project.team_id ≡ ok members
      → ((a : Str) → c.email trigger a ≡ ok (text a))
      → Announced url members text (deliver c project issue trigger w out).1
  unfolding deliver send_webhook
  delivered url members text web mail hook known rendered =
      let payload =
        build_webhook_payload c.reads.show c.simple c.reads.base_url project issue trigger in
      let sent : (deliver c project issue trigger w out).1 ≡ record {
        posts = out.posts ++ ((url, payload) ∷ []);
        mails = out.mails ++ map (λ a. (a, text a)) (recipients members);
      } =
        ap (λ o. (mail_if_enabled c project trigger o).0) (post_if_enabled_lem url web hook)
        ∙ mail_if_enabled_lem members (send_webhook c project issue trigger url out) mail known
        ∙ send_mails_all (c.email trigger) text (recipients members)
            (send_webhook c project issue trigger url out) rendered in
      record {
        payload = payload;
        posted = ap (λ o. o.posts) sent;
        about =
            build_webhook_payload-IsAbout c.reads.show c.simple c.reads.base_url project issue
              trigger;
        mailed =
            ap (λ o. o.mails) sent ∙ ap (λ l. out.mails ++ l) (mails_for-recipients text members);
      }

  unmuted :
      project.muted ≡ false
      → status_eq issue.status muted ≡ false
      → dispatch c project issue trigger w out ≡ deliver c project issue trigger w out
  unfolding dispatch is_suppressed
  unmuted m s = rw (dispatch, m, s) refl

  -- With webhooks and mail turned on, a webhook set, the members known and the mails rendered: if
  -- neither the project nor the issue is muted, one post about the issue goes to the webhook and one
  -- mail to each member who has mail turned on, whatever becomes of the alert at Alertmanager. If one
  -- of them is muted, nothing is sent and nothing is changed.
  pub dispatch-recipients :
      (url : Str) (members : List (User × TeamRole)) (text : Str → Str)
      → c.webhooks_enabled ≡ true
      → c.mailer_enabled ≡ true
      → project.webhook_url ≡ some url
      → c.members_of project.team_id ≡ ok members
      → ((a : Str) → c.email trigger a ≡ ok (text a))
      → ((project.muted ≡ false)
          × (issue.status ≢ muted)
          × Announced url members text (dispatch c project issue trigger w out).1)
        ⊎ (((project.muted ≡ true) ⊎ (issue.status ≡ muted))
            × (dispatch c project issue trigger w out ≡ (w, out, ok tt)))
  unfolding dispatch is_suppressed
  dispatch-recipients url members text web mail hook known rendered =
      elim (Bool-cases project.muted) [
        | inl m ↦ inr (inl m, rw (dispatch, m) refl)
        | inr m ↦ elim (Bool-cases (status_eq issue.status muted)) [
          | inl s ↦ inr (inr (is_muted issue.status s), rw (dispatch, m, s) refl)
          | inr s ↦ inl (
            m,
            (λ e. let no : true ≡ false = sym (ap (λ x. status_eq x muted) e) ∙ s in cc),
            subst (λ r. Announced url members text r.1) (sym (unmuted m s))
                (delivered url members text web mail hook known rendered),
          )
        ]
      ]
    where
      is_muted : (status : IssueStatus) → status_eq status muted ≡ true → status ≡ muted
      is_muted unresolved h = cc
      is_muted resolved h = cc
      is_muted muted h = refl
