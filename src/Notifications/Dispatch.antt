-- ===== src/Notifications/Dispatch.antt =====
-- src/notify.rs: which notifications an issue sends, over Alertmanager, a webhook and mail. The texts
-- of mails and of ids are given; what comes of a post or a mail is logged only, so it is left out.
pub mod Reached
mod Tests
use soika.Base.{
  ℕ, Bool, true, false, not, Option, none, some, List, [], ◌∷◌, ◌++◌, map, filter, if◌then◌else◌,
}
use soika.Base.Text.{Str, codes, trim_end}
use soika.Base.Dict.{Dict, insert}
use soika.Base.Result.{Result, ok, err}
use soika.Errors.{Error}
use soika.Issues.Types.{Uuid, Timestamp, Issue, muted, status_eq}
use soika.Access.Projects.{Project}
use soika.Access.TeamRole.{TeamRole}
use soika.Access.User.{User}
use soika.Notifications.Alert.{Show}
use soika.Notifications.Lifecycle.{World}
use soika.Notifications.Lifecycle.Steps.{Reads, notify}

-- `unsuppressed` is the source's `None`.
pub data Suppression : Type 0 where
  unsuppressed project_muted issue_muted : Suppression

unfoldable pub is_suppressed : Project → Issue → Suppression
is_suppressed project issue =
    if project.muted
    then project_muted
    else if status_eq issue.status muted
    then issue_muted
    else unsuppressed

unfoldable pub user_opted_in : User → Bool
user_opted_in user = user.notifications_enabled

unfoldable pub recipients : List (User × TeamRole) → List Str
unfolding user_opted_in
recipients members = map (λ m. m.0.email) (filter (λ m. user_opted_in m.0) members)

pub data Trigger : Type 0 where
  new_issue regression : Trigger

unfoldable pub trigger_text : Trigger → Str
trigger_text new_issue = codes "new_issue"
trigger_text regression = codes "regression"

pub record WebhookAlert : Type 0 where
  pub status : Str
  pub labels : Dict Str
  pub annotations : Dict Str
  pub starts_at : Timestamp
  pub ends_at : Str
  pub generator_url : Str
  pub fingerprint : Str

pub record WebhookPayload : Type 0 where
  pub version : Str
  pub group_key : Str
  pub truncated_alerts : ℕ
  pub status : Str
  pub receiver : Str
  pub group_labels : Dict Str
  pub common_labels : Dict Str
  pub common_annotations : Dict Str
  pub external_url : Str
  pub alerts : List WebhookAlert

abbrev pub with_level : Option Str → Dict Str → Dict Str
with_level none labels = labels
with_level (some level) labels = insert (codes "severity") level labels

abbrev pub starts_at_of : Trigger → Issue → Timestamp
starts_at_of new_issue issue = issue.first_seen
starts_at_of regression issue = issue.last_seen

-- `simple` is the text of an id without dashes.
unfoldable pub build_webhook_payload :
    Show → (Uuid → Str) → Str → Project → Issue → Trigger → WebhookPayload
unfolding trim_end trigger_text
build_webhook_payload show simple base_url project issue trigger =
    let base = trim_end b'/' base_url in
    let group_labels : Dict Str =
      (codes "project_id", show.id project.id) ∷ (codes "issue_id", show.id issue.id) ∷ [] in
    let labels = with_level issue.level (
      insert (codes "project") project.slug
        (insert (codes "alertname") (codes "SoikaIssue") group_labels)) in
    let annotations : Dict Str =
      (codes "summary", issue.title)
      ∷ (codes "trigger", trigger_text trigger)
      ∷ (codes "event_count", show.count issue.event_count)
      ∷ [] in
    let alert : WebhookAlert = record {
      status = codes "firing";
      labels = labels;
      annotations = annotations;
      starts_at = starts_at_of trigger issue;
      ends_at = codes "0001-01-01T00:00:00Z";
      generator_url =
          base ++ (codes "/projects/" ++ (project.slug ++ (codes "/issues/" ++ issue.short_id)));
      fingerprint = simple issue.id;
    } in
    record {
      version = codes "4";
      group_key = codes "soika:" ++ (show.id project.id ++ (codes ":" ++ show.id issue.id));
      truncated_alerts = 0;
      status = codes "firing";
      receiver = codes "soika";
      group_labels = group_labels;
      common_labels = labels;
      common_annotations = annotations;
      external_url = base;
      alerts = alert ∷ [];
    }

-- The posts and mails that are sent, each with its address.
pub record Outbox : Type 0 where
  pub posts : List (Str × WebhookPayload)
  pub mails : List (Str × Str)

-- What `dispatch` reads. `email` renders the mail to an address.
pub record Channels : Type 0 where
  pub reads : Reads
  pub simple : Uuid → Str
  pub webhooks_enabled : Bool
  pub mailer_enabled : Bool
  pub members_of : Uuid → Result Error (List (User × TeamRole))
  pub email : Trigger → Str → Result Error Str

unfoldable pub send_webhook : Channels → Project → Issue → Trigger → Str → Outbox → Outbox
unfolding build_webhook_payload
send_webhook c project issue trigger url out =
    let payload =
      build_webhook_payload c.reads.show c.simple c.reads.base_url project issue trigger in
    record out { posts = out.posts ++ ((url, payload) ∷ []) }

unfoldable pub post_if_enabled : Channels → Project → Issue → Trigger → Outbox → Outbox
unfolding send_webhook
post_if_enabled c project issue trigger out =
    if not c.webhooks_enabled then out else elim project.webhook_url [
      | none ↦ out
      | some url ↦ send_webhook c project issue trigger url out
    ]

-- The loop over the recipients. An error of the rendering ends it.
unfoldable pub send_mails : (Str → Result Error Str) → List Str → Outbox → Outbox
send_mails email [] out = out
send_mails email (to ∷ rest) out = elim (email to) [
  | err e ↦ out
  | ok text ↦ send_mails email rest (record out { mails = out.mails ++ ((to, text) ∷ []) })
]

unfoldable pub mail_if_enabled :
    Channels → Project → Trigger → Outbox → Outbox × Result Error (Unit {0})
unfolding recipients send_mails
mail_if_enabled c project trigger out =
    if not c.mailer_enabled then (out, ok tt) else elim (c.members_of project.team_id) [
      | err e ↦ (out, err e)
      | ok members ↦ (send_mails (c.email trigger) (recipients members) out, ok tt)
    ]

-- Past the mute checks. An error of Alertmanager is logged.
unfoldable pub deliver :
    Channels → Project → Issue → Trigger → World → Outbox → World × Outbox × Result Error (Unit {0})
unfolding notify trigger_text post_if_enabled mail_if_enabled
deliver c project issue trigger w out =
    let (w', outcome) = notify c.reads project issue (trigger_text trigger) w in
    let (out', result) =
      mail_if_enabled c project trigger (post_if_enabled c project issue trigger out) in
    (w', out', result)

unfoldable pub dispatch :
    Channels → Project → Issue → Trigger → World → Outbox → World × Outbox × Result Error (Unit {0})
unfolding is_suppressed deliver
dispatch c project issue trigger w out = elim (is_suppressed project issue) [
  | unsuppressed ↦ deliver c project issue trigger w out
  | project_muted ↦ (w, out, ok tt)
  | issue_muted ↦ (w, out, ok tt)
]
