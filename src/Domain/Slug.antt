-- ===== src/Domain/Slug.antt =====
-- src/domain/project.rs: the project slug, its check and its derivation from free text. A checked
-- slug is a list of bytes, a free text a list of characters.
pub mod Shape
pub mod Derive
mod Tests
use soika.Base.{
  ℕ, ◌+◌, Bool, true, false, not, ◌&&◌, ◌||◌, List, [], ◌∷◌, ◌++◌, leb, ltb, ◌==◌, if◌then◌else◌,
  length, all, is_empty, take,
}
use soika.Base.Text.{Str, codes, contains, is_lower, is_digit, is_alnum, to_lower, trim_by}

abbrev pub slug_max_len : ℕ
slug_max_len = 48

pub data SlugError : Type 0 where
  empty too_long invalid_char misplaced_dash : SlugError

pub data Checked : Type 0 where
  ok : Checked
  err : SlugError → Checked

-- `starts_with` and `ends_with` of a character.
abbrev pub starts_with_char : ℕ → Str → Bool
starts_with_char c [] = false
starts_with_char c (x ∷ s) = x == c

abbrev pub ends_with_char : ℕ → Str → Bool
ends_with_char c [] = false
ends_with_char c (x ∷ []) = x == c
ends_with_char c (x ∷ y ∷ s) = ends_with_char c (y ∷ s)

abbrev pub is_slug_byte : ℕ → Bool
is_slug_byte b = is_lower b || is_digit b || b == b'-'

unfoldable pub validate_slug : Str → Checked
validate_slug slug =
    if is_empty slug
    then err empty
    else if ltb slug_max_len (length slug)
    then err too_long
    else if not (all is_slug_byte slug)
    then err invalid_char
    else if starts_with_char b'-' slug || ends_with_char b'-' slug || contains slug (codes "--")
    then err misplaced_dash
    else ok

-- One round of the loop: the slug so far and `prev_dash`, with one more character read.
unfoldable pub push_char : Str → Bool → ℕ → Str × Bool
push_char slug prev_dash ch =
    if is_alnum ch
    then (slug ++ (to_lower ch ∷ []), false)
    else if not prev_dash && not (is_empty slug)
    then (slug ++ (b'-' ∷ []), true)
    else (slug, prev_dash)

unfoldable pub slug_loop : Str → Bool → Str → Str
unfolding push_char
slug_loop slug prev_dash [] = slug
slug_loop slug prev_dash (ch ∷ chars) =
    let (slug', prev') = push_char slug prev_dash ch in
    let rest = slug_loop slug' prev' chars in if leb slug_max_len (length slug) then slug else rest

-- `id` is the hexadecimal text of the random id that an empty slug falls back to.
unfoldable pub slugify : Str → Str → Str
unfolding slug_loop trim_by
slugify id input =
    let trimmed = trim_by (λ c. c == b'-') (slug_loop [] false input) in
    if is_empty trimmed then codes "project-" ++ take 8 id else trimmed
