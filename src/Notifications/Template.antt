-- ===== src/Notifications/Template.antt =====
-- src/domain/notifications.rs: the strict templates, in which only `{{ variable }}` is replaced.
pub mod Verdict
pub mod Pieces
mod Tests
use soika.Base.{
  ℕ, zero, suc, Bool, true, false, ◌||◌, not, Option, none, some, List, [], ◌∷◌, ◌++◌, any, length,
  if◌then◌else◌,
}
use soika.Base.Text.{Str, codes, str_eq, contains, split_once, trim}
use soika.Base.Dict.{Dict, lookup}
use soika.Base.Result.{Result, ok, err}
use soika.Errors.{Error, validation}

abbrev pub variables : List Str
variables =
    codes "project_name"
    ∷ codes "project_slug"
    ∷ codes "project_id"
    ∷ codes "team_id"
    ∷ codes "issue_id"
    ∷ codes "issue_short_id"
    ∷ codes "title"
    ∷ codes "culprit"
    ∷ codes "level"
    ∷ codes "environment"
    ∷ codes "release"
    ∷ codes "event_count"
    ∷ codes "first_seen"
    ∷ codes "last_seen"
    ∷ codes "issue_url"
    ∷ codes "org_name"
    ∷ codes "trigger"
    ∷ []

unfoldable pub is_variable : Str → Bool
is_variable name = any (str_eq name) variables

-- One round of the loop up to the look-up: the text before the next placeholder, its name, and the
-- text behind it, or `none` where no placeholder is left.
unfoldable pub next_placeholder : Str → Result Error (Option (Str × Str × Str))
unfolding is_variable
next_placeholder remaining = elim (split_once remaining (codes "{{")) [
  | none ↦
      if contains remaining (codes "}}")
      then err (validation (codes "invalid notification placeholder"))
      else ok none
  | some (prefix, tail) ↦
      if contains prefix (codes "}}")
      then err (validation (codes "invalid notification placeholder"))
      else elim (split_once tail (codes "}}")) [
        | none ↦ err (validation (codes "unclosed notification placeholder"))
        | some (inner, rest) ↦
            let name = trim inner in
            if is_variable name
            then ok (some (prefix, name, rest))
            else err (validation (codes "unknown notification variable: " ++ name))
      ]
]

-- The loop of `render_template`, on fuel.
unfoldable pub render_loop : ℕ → Dict Str → Str → Str → Option (Result Error Str)
unfolding next_placeholder
render_loop zero vars out remaining = none
render_loop (suc fuel) vars out remaining = elim (next_placeholder remaining) [
  | err e ↦ some (err e)
  | ok none ↦ some (ok (out ++ remaining))
  | ok (some (prefix, name, rest)) ↦ elim (lookup name vars) [
    | none ↦ some (err (validation (codes "missing notification variable")))
    | some value ↦ render_loop fuel vars ((out ++ prefix) ++ value) rest
  ]
]

unfoldable pub render_template : Str → Dict Str → Option (Result Error Str)
unfolding render_loop
render_template template vars =
    if contains template (codes "{%") || contains template (codes "{#")
    then some (err (validation (codes "only {{ variable }} placeholders are supported")))
    else render_loop (suc (length template)) vars [] template
