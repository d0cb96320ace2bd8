-- ===== src/Notifications/Template/Verdict.antt =====
-- src/domain/notifications.rs: rendering ends, and whether it succeeds depends on the template only.
use soika.Base.{
  ℕ, zero, suc, ◌<◌, ◌≡◌, refl, arith, true, ◌||◌, Option, none, some, [], ◌++◌, length, Bool-cases,
  Option-cases, inl, inr,
}
use soika.Base.Text.{Str, codes, contains, split_once}
use soika.Base.Split.{length-split_once}
use soika.Base.Dict.{Dict, lookup}
use soika.Base.Result.{Result, ok, err, Result-cases}
use soika.Errors.{Error, validation}
use soika.Notifications.Template.{is_variable, next_placeholder, render_loop, render_template}

-- Every variable of the templates has a value.
abbrev pub IsComplete : Dict Str → Type 0
IsComplete vars = (name : Str) → is_variable name ≡ true → (v : Str) × (lookup name vars ≡ some v)

-- Both succeed, or both fail with the same error.
abbrev pub SameVerdict : Result Error Str → Result Error Str → Type 0
SameVerdict (ok a) (ok b) = Unit {0}
SameVerdict (err e) (err f) = e ≡ f
SameVerdict _ _ = ⊥

-- Two runs of the loop end with the same verdict.
abbrev pub Agree : Option (Result Error Str) → Option (Result Error Str) → Type 0
Agree m n =
    (r : Result Error Str) × (s : Result Error Str) × (m ≡ some r) × (n ≡ some s) × SameVerdict r s

next_placeholder-shorter :
    (remaining : Str) {prefix name rest : Str}
    → next_placeholder remaining ≡ ok (some (prefix, name, rest))
    → (is_variable name ≡ true) × (length rest < length remaining)
unfolding next_placeholder
next_placeholder-shorter remaining h = elim (Option-cases (split_once remaining (codes "{{"))) [
  | inl e ↦ ground (arith, e)
  | inr ((before, tail), e) ↦ elim (Option-cases (split_once tail (codes "}}"))) [
    | inl f ↦ ground (arith, e, f)
    | inr ((inner, behind), f) ↦ ground (
      arith,
      e,
      f,
      length-split_once remaining (codes "{{") e,
      length-split_once tail (codes "}}") f,
    )
  ]
]

module _ (v w : Dict Str) (full : IsComplete v) (full' : IsComplete w) where
  loop-Agree :
      (fuel : ℕ) (out out' remaining : Str)
      → length remaining < fuel
      → Agree (render_loop fuel v out remaining) (render_loop fuel w out' remaining)
  unfolding render_loop
  loop-Agree zero out out' remaining h = let no : ⊥ = omega arith in absurd no
  loop-Agree (suc fuel) out out' remaining h = elim (Result-cases (next_placeholder remaining)) [
    | inl (x, e) ↦ (err x, err x, rw (e, render_loop), rw (e, render_loop), refl)
    | inr (none, e) ↦ (
      ok (out ++ remaining),
      ok (out' ++ remaining),
      rw (e, render_loop),
      rw (e, render_loop),
      tt,
    )
    | inr (some (prefix, name, rest), e) ↦
        let (known, shorter) = next_placeholder-shorter remaining e in
        let (a, f) = full name known in
        let (b, g) = full' name known in
        let (r, s, m, n, same) =
          loop-Agree fuel ((out ++ prefix) ++ a) ((out' ++ prefix) ++ b) rest (omega arith) in
        (r, s, rw (e, render_loop, f, m), rw (e, render_loop, g, n), same)
  ]

  -- Rendering ends on every template. Whether it succeeds, and with which error it fails, is the same
  -- for any two sets of variables that give each variable of the templates a value.
  pub render_template-Agree :
      (template : Str) → Agree (render_template template v) (render_template template w)
  unfolding render_template
  render_template-Agree template =
      elim (Bool-cases (contains template (codes "{%") || contains template (codes "{#"))) [
        | inl bad ↦
            let e = validation (codes "only {{ variable }} placeholders are supported") in
            (err e, err e, rw (render_template, bad), rw (render_template, bad), refl)
        | inr fine ↦
            rw (render_template, fine)
              (loop-Agree (suc (length template)) [] [] template (omega arith))
      ]
