-- ===== src/Notifications/Config.antt =====
-- src/domain/notifications.rs: the configuration of Alertmanager and its check, alert names and
-- severities. Reading a URL belongs to the library `reqwest`.
use soika.Base.{
  Bool, true, false, ◌||◌, ◌&&◌, not, Option, none, some, [], ◌∷◌, all, is_empty, length, ltb, leb,
  if◌then◌else◌, ◌==◌,
}
use soika.Base.Int.{ℤ, pos, ltb_ℤ}
use soika.Base.Text.{Str, codes, str_eq, is_alpha, is_alnum, trim, byte_len}
use soika.Base.Dict.{Dict, lookup, contains_key}
use soika.Base.Result.{Result, ok, err}
use soika.Errors.{Error, validation}
use soika.Notifications.Template.{render_template}

-- What a rendering may come to: no fuel, an error, or a value.
abbrev pub Run : Type 0 → Type 0
Run A = Option (Result Error A)

infixl 5 ◌>>=◌
abbrev pub ◌>>=◌ : {A : Type 0} {B : Type 0} → Run A → (A → Run B) → Run B
none >>= f = none
some (err e) >>= f = some (err e)
some (ok a) >>= f = f a

pub data AlertSeverity : Type 0 where
  critical warning info : AlertSeverity

unfoldable pub alert_name : AlertSeverity → Str
alert_name critical = codes "SoikaIssueCritical"
alert_name warning = codes "SoikaIssueWarning"
alert_name info = codes "SoikaIssueInfo"

unfoldable pub as_str : AlertSeverity → Str
as_str critical = codes "critical"
as_str warning = codes "warning"
as_str info = codes "info"

unfoldable pub from_str : Str → Result Error AlertSeverity
from_str value =
    if str_eq value (codes "critical")
    then ok critical
    else if str_eq value (codes "warning")
    then ok warning
    else if str_eq value (codes "info")
    then ok info
    else err (validation (codes "severity must be critical, warning or info"))

pub record AlertmanagerNames : Type 0 where
  pub critical : Str
  pub warning : Str
  pub info : Str
  pub project_test : Str

unfoldable pub for_severity : AlertmanagerNames → AlertSeverity → Str
for_severity names critical = names.critical
for_severity names warning = names.warning
for_severity names info = names.info

unfoldable pub validate_interval : ℤ → Result Error (Unit {0})
validate_interval seconds =
    if ltb_ℤ seconds (pos 10) || ltb_ℤ (pos 86400) seconds
    then err (validation (codes "Alertmanager interval must be between 10 and 86400 seconds"))
    else ok tt

pub record AlertmanagerConfig : Type 0 where
  pub enabled : Bool
  pub url : Str
  pub labels : Dict Str
  pub annotations : Dict Str

-- The parts of a URL that the check reads.
pub record Url : Type 0 where
  pub scheme : Str
  pub host_str : Option Str
  pub username : Str
  pub password : Option Str
  pub query : Option Str
  pub fragment : Option Str

abbrev is_some {ℓ} : {A : Type ℓ} → Option A → Bool
is_some none = false
is_some (some a) = true

unfoldable pub is_base_url : Url → Bool
is_base_url u =
    (str_eq u.scheme (codes "http") || str_eq u.scheme (codes "https"))
    && is_some u.host_str
    && is_empty u.username
    && not (is_some u.password)
    && not (is_some u.query)
    && not (is_some u.fragment)

unfoldable pub is_name : Str → Bool
is_name [] = false
is_name (c ∷ key) =
    (is_alpha c || c == b'_')
    && all (λ d. is_alnum d || d == b'_') key
    && leb (byte_len (c ∷ key)) 128

-- The check of one map of templates: each name, each length, and that each template renders.
unfoldable pub validate_templates : Dict Str → Dict Str → Run (Unit {0})
unfolding is_name
validate_templates sample [] = some (ok tt)
validate_templates sample ((key, value) ∷ map) =
    let rest = validate_templates sample map in
    if not (is_name key)
    then some (err (validation (codes "invalid label or annotation name")))
    else if ltb 8192 (byte_len value)
    then some (err (validation (codes "notification template is too long")))
    else (render_template value sample >>= λ rendered. rest)

unfoldable pub validate_map : Dict Str → Dict Str → Run (Unit {0})
unfolding validate_templates
validate_map sample map =
    if ltb 64 (length map)
    then some (err (validation (codes "at most 64 labels or annotations are allowed")))
    else validate_templates sample map

unfoldable pub is_blank : Option Str → Bool
is_blank none = true
is_blank (some s) = is_empty (trim s)

unfoldable pub sample_variables : Dict Str
sample_variables =
    (codes "project_name", codes "Example project")
    ∷ (codes "project_slug", codes "example")
    ∷ (codes "project_id", codes "00000000-0000-0000-0000-000000000001")
    ∷ (codes "team_id", codes "00000000-0000-0000-0000-000000000002")
    ∷ (codes "issue_id", codes "00000000-0000-0000-0000-000000000003")
    ∷ (codes "issue_short_id", codes "iss001")
    ∷ (codes "title", codes "ValueError: example error")
    ∷ (codes "culprit", codes "app.checkout")
    ∷ (codes "level", codes "error")
    ∷ (codes "environment", codes "production")
    ∷ (codes "release", codes "1.0.0")
    ∷ (codes "event_count", codes "42")
    ∷ (codes "first_seen", codes "2026-01-01T12:00:00Z")
    ∷ (codes "last_seen", codes "2026-01-01T12:00:00Z")
    ∷ (codes "issue_url", codes "https://errors.example.com/projects/web001/issues/iss001")
    ∷ (codes "org_name", codes "soika")
    ∷ (codes "trigger", codes "new_issue")
    ∷ []

-- The URL, which may be left empty as long as the channel is off. `parse_url` is the library's.
unfoldable pub check_url : (Str → Option Url) → AlertmanagerConfig → Run (Unit {0})
unfolding is_base_url
check_url parse_url c =
    if c.enabled || not (is_empty c.url)
    then elim (parse_url c.url) [
      | none ↦ some (err (validation (codes "invalid Alertmanager base URL")))
      | some u ↦
          if is_base_url u
          then some (ok tt)
          else some (
              err (
                validation (
                  codes
                    "Alertmanager requires an HTTP(S) base URL without credentials, query or fragment")))
    ]
    else some (ok tt)

-- The labels that are reserved, and the one that is needed.
unfoldable pub check_labels : Dict Str → Run (Unit {0})
unfolding is_blank
check_labels labels =
    if contains_key (codes "issue_id") labels || contains_key (codes "project_id") labels
    then some (err (validation (codes "issue_id and project_id labels are reserved")))
    else if is_blank (lookup (codes "alertname") labels)
    then some (err (validation (codes "alertname label is required")))
    else some (ok tt)

unfoldable pub validate : (Str → Option Url) → AlertmanagerConfig → Run (Unit {0})
unfolding check_url validate_map check_labels
validate parse_url c = check_url parse_url c >>= λ url_checked.
    validate_map sample_variables c.labels >>= λ labels_checked.
    validate_map sample_variables c.annotations >>= λ annotations_checked. check_labels c.labels
