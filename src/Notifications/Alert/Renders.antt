-- ===== src/Notifications/Alert/Renders.antt =====
-- src/domain/notifications.rs, src/alertmanager.rs: a configuration that is accepted can be rendered.
use soika.Base.{
  ◌↔◌, ◌≢◌, ◌||◌, is_empty, Option-cases, ◌+◌, ◌≡◌, ◌⊎◌, refl, sym, ap, ◌∙◌, arith, Bool, true,
  false, not, Option, none, some, [], ◌∷◌, map, any, if◌then◌else◌, length, ltb, Bool-cases, inl,
  inr,
}
use soika.Base.Text.{Str, codes, str_eq, str_eq_iff, byte_len, trim}
use soika.Base.Time.{from_secs}
use soika.Base.Dict.{Dict, lookup, insert, contains_key, lookup-insert}
use soika.Base.Result.{ok, err}
use soika.Errors.{Error, validation}
use soika.Issues.Types.{Timestamp, Issue}
use soika.Access.Projects.{Project}
use soika.Notifications.Template.{is_variable, render_template}
use soika.Notifications.Template.Verdict.{IsComplete, Agree, render_template-Agree}
use soika.Notifications.Config.{
  AlertmanagerConfig, Run, ◌>>=◌, Url, is_name, is_blank, validate_templates, validate_map,
  sample_variables, check_url, check_labels, validate,
}
use soika.Notifications.Alert.{
  AlertmanagerAlert, Show, alert_ttl_secs, variables, render_map, required, render_alert,
}

lookup-any :
    (vars : Dict Str) (name : Str)
    → any (str_eq name) (map (λ e. e.0) vars) ≡ true
    → (v : Str) × (lookup name vars ≡ some v)
unfolding lookup
lookup-any [] name h = cc
lookup-any ((k, v) ∷ vars) name h = elim (Bool-cases (str_eq k name)) [
  | inl hit ↦ (v, rw (lookup, hit) refl)
  | inr miss ↦
      let (w, e) =
        lookup-any vars name (ground (arith, miss, str_eq_iff k name, str_eq_iff name k, h)) in
      (w, rw (lookup, miss) e)
]

-- The sample of the check does so too.
pub sample-IsComplete : IsComplete sample_variables
unfolding is_variable sample_variables
sample-IsComplete name h = lookup-any sample_variables name h

-- The variables of an issue give each variable of the templates a value.
pub variables-IsComplete :
    (show : Show) (base_url org : Str) (project : Project) (issue : Issue) (trigger : Str)
    → IsComplete (variables show base_url org project issue trigger)
unfolding is_variable variables
variables-IsComplete show base_url org project issue trigger name h =
    lookup-any (variables show base_url org project issue trigger) name h

abbrev text_or : Str → Option Str → Str
text_or s none = s
text_or s (some t) = t

abbrev succeeds : {A : Type 0} → Run A → Bool
succeeds (some (ok a)) = true
succeeds _ = false

bind-ok :
    {A : Type 0} {B : Type 0} (m : Run A) (f : A → Run B) (b : B)
    → (m >>= f) ≡ some (ok b)
    → (a : A) × (m ≡ some (ok a)) × (f a ≡ some (ok b))
bind-ok none f b h = let no : false ≡ true = ap succeeds h in cc
bind-ok (some (err e)) f b h = let no : false ≡ true = ap succeeds h in cc
bind-ok (some (ok a)) f b h = (a, refl, h)

guard-ok :
    {A : Type 0} (bad : Bool) (e : Error) (m : Run A) (a : A)
    → (if bad then some (err e) else m) ≡ some (ok a)
    → m ≡ some (ok a)
guard-ok true e m a h = let no : false ≡ true = ap succeeds h in cc
guard-ok false e m a h = h

-- A template that renders with one set of variables renders with another.
same-ok :
    (m n : Run Str) (text : Str)
    → Agree m n
    → m ≡ some (ok text)
    → (other : Str) × (n ≡ some (ok other))
same-ok m n text (ok a, ok b, e, f, same) h = (b, f)
same-ok m n text (ok a, err y, e, f, same) h = absurd same
same-ok m n text (err x, r, e, f, same) h = let no : false ≡ true = ap succeeds (sym e ∙ h) in cc

module _ (vars : Dict Str) (full : IsComplete vars) where
  -- Each template is rendered under its key.
  abbrev Rendered : Dict Str → Dict Str → Type 0
  Rendered templates rendered =
      (key template : Str)
      → lookup key templates ≡ some template
      → (text : Str) × (render_template template vars ≡ some (ok text))
        × (lookup key rendered ≡ some text)

  Rendered-cons :
      (k value text : Str) (templates rendered : Dict Str)
      → render_template value vars ≡ some (ok text)
      → Rendered templates rendered
      → Rendered ((k, value) ∷ templates) ((k, text) ∷ rendered)
  unfolding lookup
  Rendered-cons k value text templates rendered e h key template found =
      elim (Bool-cases (str_eq k key)) [
        | inl here ↦
            let same : some value ≡ some template = rw (lookup, here) at found in
            let chosen : value ≡ template = ap (text_or value) same in
            (text, ap (λ t. render_template t vars) (sym chosen) ∙ e, rw (lookup, here) refl)
        | inr there ↦
            let (t, r, l) = h key template (rw (lookup, there) at found) in
            (t, r, rw (lookup, there) l)
      ]

  render_map-ok :
      (templates : Dict Str)
      → validate_templates sample_variables templates ≡ some (ok tt)
      → (rendered : Dict Str) × (render_map vars templates ≡ some (ok rendered))
        × Rendered templates rendered
  unfolding validate_templates render_map lookup
  render_map-ok [] h = ([], refl, λ key template e. cc)
  render_map-ok ((key, value) ∷ templates) h =
      let named = guard-ok (not (is_name key)) _ _ tt h in
      let short = guard-ok (ltb 8192 (byte_len value)) _ _ tt named in
      let (text, renders, rest) =
        bind-ok (render_template value sample_variables)
          (λ rendered. validate_templates sample_variables templates) tt short in
      let (other, again) =
        same-ok (render_template value sample_variables) (render_template value vars) text
          (render_template-Agree sample_variables vars sample-IsComplete full value) renders in
      let (more, ends, kept) = render_map-ok templates rest in
      (
        (key, other) ∷ more,
        rw (render_map, again, ends) refl,
        Rendered-cons key value other templates more again kept,
      )

  validate_map-ok :
      (templates : Dict Str)
      → validate_map sample_variables templates ≡ some (ok tt)
      → (rendered : Dict Str) × (render_map vars templates ≡ some (ok rendered))
        × Rendered templates rendered
  unfolding validate_map
  validate_map-ok templates h =
      render_map-ok templates (guard-ok (ltb 64 (length templates)) _ _ tt h)

  check_labels-some :
      (labels : Dict Str)
      → check_labels labels ≡ some (ok tt)
      → (template : Str) × (lookup (codes "alertname") labels ≡ some template)
  unfolding check_labels
  check_labels-some labels h = elim (Option-cases (lookup (codes "alertname") labels)) [
    | inr found ↦ found
    | inl e ↦
        let blank =
          guard-ok
            (contains_key (codes "issue_id") labels || contains_key (codes "project_id") labels) _ _
            tt h in
        let no : some (err (validation (codes "alertname label is required"))) ≡ some (ok tt) =
          rw (e, is_blank) at blank in
        cc
  ]

  required-ok : (key : Str) → is_variable key ≡ true → (v : Str) × (required vars key ≡ some (ok v))
  unfolding required
  required-ok key h = let (v, e) = full key h in (v, rw (required, e) refl)

  -- A name of an alert is blank if nothing is left of it without the white space around it.
  is_blank_iff : (name : Str) → (is_blank (some name) ≡ true) ↔ (trim name ≡ [])
  unfolding is_blank
  is_blank_iff name = (empty (trim name), λ e. ap is_empty e)
    where
      empty : (s : Str) → is_empty s ≡ true → s ≡ []
      empty [] e = refl
      empty (c ∷ s) e = cc

  named_label :
      (issue_id project_id name : Str) (labels : Dict Str)
      → lookup (codes "alertname") labels ≡ some name
      → lookup
          (codes "alertname")
          (insert (codes "project_id") project_id (insert (codes "issue_id") issue_id labels))
        ≡ some name
  unfolding str_eq
  named_label issue_id project_id name labels e =
      lookup-insert (codes "project_id") (codes "alertname") project_id
        (insert (codes "issue_id") issue_id labels)
      ∙ lookup-insert (codes "issue_id") (codes "alertname") issue_id labels
      ∙ e

  -- A configuration that is accepted has a template for the name of its alerts, and it renders,
  -- whatever the values of the variables, as long as each has one. If the name that it gives is not
  -- blank, the alert renders and bears it. If it is blank, then that is the error.
  pub render_alert-validate :
      (parse_url : Str → Option Url) (config : AlertmanagerConfig) (now : Timestamp)
      → validate parse_url config ≡ some (ok tt)
      → (template : Str) × (name : Str) × (lookup (codes "alertname") config.labels ≡ some template)
        × (render_template template vars ≡ some (ok name))
        × (((trim name ≢ [])
              × ((alert : AlertmanagerAlert) × (render_alert config vars now ≡ some (ok alert))
                  × (lookup (codes "alertname") alert.labels ≡ some name)))
            ⊎ ((trim name ≡ [])
                × (render_alert config vars now
                    ≡ some (err (validation (codes "rendered alertname must not be empty"))))))
  unfolding validate render_alert is_variable str_eq
  render_alert-validate parse_url config now h =
      let notes = λ (l : Unit {0}).
        validate_map sample_variables config.annotations >>= λ a. check_labels config.labels in
      let rest = λ (u : Unit {0}). validate_map sample_variables config.labels >>= notes in
      let (u, url_checked, after_url) = bind-ok (check_url parse_url config) rest tt h in
      let (l, labels_checked, after_labels) =
        bind-ok (validate_map sample_variables config.labels) notes tt after_url in
      let (a, annotations_checked, after) =
        bind-ok (validate_map sample_variables config.annotations) (λ a. check_labels config.labels)
          tt after_labels in
      let (labels, labels_ok, rendered) = validate_map-ok config.labels labels_checked in
      let (annotations, annotations_ok, noted) =
        validate_map-ok config.annotations annotations_checked in
      let (issue_id, i) = required-ok (codes "issue_id") refl in
      let (project_id, p) = required-ok (codes "project_id") refl in
      let (url, g) = required-ok (codes "issue_url") refl in
      let (template, given) = check_labels-some config.labels after in
      let (name, renders, under) = rendered (codes "alertname") template given in
      let all_labels =
        insert (codes "project_id") project_id (insert (codes "issue_id") issue_id labels) in
      let bears : lookup (codes "alertname") all_labels ≡ some name =
        named_label issue_id project_id name labels under in
      (
        template,
        name,
        given,
        renders,
        elim (Bool-cases (is_blank (some name))) [
          | inl blank ↦ inr (
            (is_blank_iff name).0 blank,
            rw (render_alert, labels_ok, i, p, ap is_blank bears ∙ blank) refl,
          )
          | inr named ↦ inl (
            (λ e. let no : true ≡ false = sym ((is_blank_iff name).1 e) ∙ named in cc),
            (
              record {
                labels = all_labels;
                annotations = annotations;
                starts_at = now;
                ends_at = now + from_secs alert_ttl_secs;
                generator_url = url;
              },
              rw (render_alert, labels_ok, i, p, ap is_blank bears ∙ named, annotations_ok, g) refl,
              bears,
            ),
          )
        ],
      )
