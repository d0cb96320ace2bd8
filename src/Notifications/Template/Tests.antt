-- ===== src/Notifications/Template/Tests.antt =====
-- Templates of the source's own tests, and the theorems at them.
use soika.Base.{◌≡◌, refl, arith, true, some, List, [], ◌∷◌, map, any}
use soika.Base.Text.{
  Str, codes, str_eq, str_eq_iff, trim_by, trim_start_by, contains, starts_with, split_once, trim,
}
use soika.Base.Dict.{Dict, lookup}
use soika.Base.Result.{ok, err}
use soika.Errors.{validation}
use soika.Notifications.Template.{
  variables, is_variable, next_placeholder, render_loop, render_template,
}
use soika.Notifications.Template.Verdict.{IsComplete, Agree, render_template-Agree}
use soika.Notifications.Template.Pieces.{Piece, text, hole, expand, AllPlain, render_template-print}

-- Each variable with the same value.
abbrev all_same : Str → List Str → Dict Str
all_same value names = map (λ name. (name, value)) names

lookup-all_same :
    (value : Str) (names : List Str) (name : Str)
    → any (str_eq name) names ≡ true
    → lookup name (all_same value names) ≡ some value
unfolding lookup
lookup-all_same value [] name h = cc
lookup-all_same value (n ∷ names) name h =
    ground (arith, lookup-all_same value names name, str_eq_iff n name, str_eq_iff name n)

all_same-IsComplete : (value : Str) → IsComplete (all_same value variables)
unfolding is_variable
all_same-IsComplete value name h = (value, lookup-all_same value variables name h)

abbrev braces : Dict Str
braces = all_same (codes "{{ title }}") variables

abbrev pieces : List Piece
pieces = text (codes "In ") ∷ hole (codes " title ") ∷ hole (codes "trigger") ∷ []

pieces-AllPlain : AllPlain pieces
unfolding is_variable str_eq trim trim_by trim_start_by
pieces-AllPlain = (refl, (refl, refl, (refl, refl, tt)))

render_template-print_example :
    render_template (codes "In {{ title }}{{trigger}}") braces ≡ some (ok (expand braces pieces))
render_template-print_example =
    render_template-print braces (all_same-IsComplete (codes "{{ title }}")) pieces pieces-AllPlain

render_template-Agree_example :
    Agree
      (render_template (codes "{{ nope }}") braces)
      (render_template (codes "{{ nope }}") (all_same (codes "x") variables))
render_template-Agree_example =
    render_template-Agree braces (all_same (codes "x") variables)
      (all_same-IsComplete (codes "{{ title }}")) (all_same-IsComplete (codes "x"))
      (codes "{{ nope }}")

unclosed :
    render_template (codes "{{ title") braces
    ≡ some (err (validation (codes "unclosed notification placeholder")))
unfolding render_template render_loop next_placeholder contains starts_with split_once
unclosed = refl
