-- ===== src/Notifications/Alert/Tests.antt =====
-- A configuration that is accepted, and the theorem at it.
use soika.Base.{◌≡◌, ◌≢◌, ◌⊎◌, refl, true, Option, none, some, [], ◌∷◌}
use soika.Base.Text.{
  Str, codes, str_eq, contains, starts_with, split_once, trim, trim_by, trim_start_by, byte_len,
}
use soika.Base.Dict.{lookup, contains_key}
use soika.Base.Result.{ok, err}
use soika.Errors.{validation}
use soika.Notifications.Template.{is_variable, next_placeholder, render_loop, render_template}
use soika.Notifications.Config.{
  AlertmanagerConfig, Url, is_name, is_base_url, is_blank, validate_templates, validate_map,
  sample_variables, check_url, check_labels, validate,
}
use soika.Notifications.Alert.{AlertmanagerAlert, render_alert}
use soika.Notifications.Alert.Renders.{sample-IsComplete, render_alert-validate}

abbrev parse_url : Str → Option Url
parse_url text = some (record {
  scheme = codes "http";
  host_str = some (codes "am");
  username = [];
  password = none;
  query = none;
  fragment = none;
})

abbrev config : AlertmanagerConfig
config = record {
  enabled = true;
  url = codes "http://am/";
  labels = (codes "alertname", codes "New {{ title }}") ∷ [];
  annotations = [];
}

accepted : validate parse_url config ≡ some (ok tt)
unfolding validate check_url check_labels validate_map validate_templates is_name is_base_url
    is_blank sample_variables is_variable next_placeholder render_loop render_template str_eq
    contains starts_with split_once trim trim_by trim_start_by byte_len lookup contains_key
accepted = refl

render_alert-validate_example :
    (template : Str) × (name : Str) × (lookup (codes "alertname") config.labels ≡ some template)
    × (render_template template sample_variables ≡ some (ok name))
    × (((trim name ≢ [])
          × ((alert : AlertmanagerAlert) × (render_alert config sample_variables 5
                ≡ some (ok alert))
              × (lookup (codes "alertname") alert.labels ≡ some name)))
        ⊎ ((trim name ≡ [])
            × (render_alert config sample_variables 5
                ≡ some (err (validation (codes "rendered alertname must not be empty"))))))
render_alert-validate_example =
    render_alert-validate sample_variables sample-IsComplete parse_url config 5 accepted
