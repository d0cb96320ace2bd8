-- ===== src/Base/Trim.antt =====
-- What `trim` leaves of a text.
use mathlib.Core.Path.{◌≡◌, refl, sym, ap, ◌∙◌}
use mathlib.Core.Logic.{◌↔◌, inl, inr}
use mathlib.Core.Bool.{Bool, true, false, not}
use mathlib.Core.List.{[], ◌∷◌, ◌++◌, reverse, reverse-append, reverse-reverse, reverse-cons}
use native.Mathlib.Omega.{arith}
use soika.Base.Tests.{Bool-cases, &&_true}
use soika.Base.Lists.{all}
use soika.Base.Text.{Str, str_eq, str_eq_iff, is_whitespace, trim_start_by, trim_by, trim}

abbrev pub is_space : Str → Bool
is_space s = all is_whitespace s

-- A text with white space before and behind it.
abbrev pub IsSpelled : Str → Str → Type 0
IsSpelled s word =
    (before : Str) × (behind : Str) × (is_space before ≡ true)
    × (is_space behind ≡ true)
    × (s ≡ before ++ (word ++ behind))

-- The text starts with a character that is no white space.
abbrev pub is_solid : Str → Bool
is_solid [] = false
is_solid (c ∷ s) = not (is_whitespace c)

abbrev strip : Str → Str
strip s = trim_start_by is_whitespace s

strip-parts : (s : Str) → (before : Str) × (is_space before ≡ true) × (s ≡ before ++ strip s)
unfolding trim_start_by
strip-parts [] = ([], refl, refl)
strip-parts (c ∷ s) = elim (Bool-cases (is_whitespace c)) [
  | inl white ↦
      let (before, space, e) = strip-parts s in
      (c ∷ before, rw white space, rw (trim_start_by, white) (ap (λ t. c ∷ t) e))
  | inr black ↦ ([], refl, rw (trim_start_by, black) refl)
]

strip-space :
    (before s : Str) → is_space before ≡ true → is_solid s ≡ true → strip (before ++ s) ≡ s
unfolding trim_start_by
strip-space [] [] space solid = refl
strip-space [] (c ∷ s) space solid = ground arith
strip-space (c ∷ before) s space solid =
    let (white, rest) = &&_true (is_whitespace c) (is_space before) space in
    rw (trim_start_by, white) (strip-space before s rest solid)

is_solid-append : (s t : Str) → is_solid s ≡ true → is_solid (s ++ t) ≡ true
is_solid-append [] t h = cc
is_solid-append (c ∷ s) t h = h

is_space-append : (s t : Str) → is_space s ≡ true → is_space t ≡ true → is_space (s ++ t) ≡ true
is_space-append [] t h k = k
is_space-append (c ∷ s) t h k =
    let (white, rest) = &&_true (is_whitespace c) (is_space s) h in
    rw white (is_space-append s t rest k)

is_space-reverse : (s : Str) → is_space s ≡ true → is_space (reverse s) ≡ true
is_space-reverse [] h = refl
is_space-reverse (c ∷ s) h =
    let (white, rest) = &&_true (is_whitespace c) (is_space s) h in
    ap is_space (reverse-cons c s)
    ∙ is_space-append (reverse s) (c ∷ []) (is_space-reverse s rest) (rw white refl)

-- A text is what `trim` leaves, with white space around it.
pub trim-parts : (s : Str) → IsSpelled s (trim s)
unfolding trim trim_by
trim-parts s =
    let (before, space, e) = strip-parts s in
    let (tail, space', e') = strip-parts (reverse (strip s)) in
    let turned : strip s ≡ reverse (strip (reverse (strip s))) ++ reverse tail =
      sym (reverse-reverse (strip s))
      ∙ ap reverse e'
      ∙ reverse-append tail (strip (reverse (strip s))) in
    (before, reverse tail, space, is_space-reverse tail space', e ∙ ap (λ t. before ++ t) turned)

-- A text whose ends are no white space is what `trim` leaves of it with white space around it.
pub trim-IsSpelled :
    (s word : Str)
    → is_solid word ≡ true
    → is_solid (reverse word) ≡ true
    → IsSpelled s word
    → trim s ≡ word
unfolding trim trim_by
trim-IsSpelled s word solid solid' (before, behind, space, space', e) =
    let first : strip s ≡ word ++ behind =
      ap strip e ∙ strip-space before (word ++ behind) space (is_solid-append word behind solid) in
    let second : strip (reverse (strip s)) ≡ reverse word =
      ap (λ t. strip (reverse t)) first
      ∙ ap strip (reverse-append word behind)
      ∙ strip-space (reverse behind) (reverse word) (is_space-reverse behind space') solid' in
    ap reverse second ∙ reverse-reverse word

-- The test of a text without the white space around it.
pub trim_eq_iff :
    (s word : Str)
    → is_solid word ≡ true
    → is_solid (reverse word) ≡ true
    → (str_eq (trim s) word ≡ true) ↔ IsSpelled s word
trim_eq_iff s word solid solid' = (
  (λ h.
      let (before, behind, space, space', e) = trim-parts s in
      (
        before,
        behind,
        space,
        space',
        e ∙ ap (λ t. before ++ (t ++ behind)) ((str_eq_iff (trim s) word).0 h),
      )),
  (λ spelled. (str_eq_iff (trim s) word).1 (trim-IsSpelled s word solid solid' spelled)),
)
