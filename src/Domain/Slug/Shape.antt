-- ===== src/Domain/Slug/Shape.antt =====
-- src/domain/project.rs: what a slug looks like, told by an automaton that reads it once.
use soika.Base.{
  ℕ, ◌≤◌, ◌<◌, ◌≡◌, ◌↔◌, refl, arith, Bool, true, false, not, ◌&&◌, ◌||◌, [], ◌∷◌, ◌++◌, ◌==◌,
  length, all, if◌then◌else◌,
}
use soika.Base.Text.{Str, codes, contains, is_lower, is_digit}
use soika.Domain.Slug.{
  slug_max_len, starts_with_char, ends_with_char, is_slug_byte, validate_slug, ok,
}

-- Words of `a-z` and `0-9` with single dashes between them; `dash` says that a dash cannot stand
-- next, at the start or behind another.
unfoldable pub reads : Bool → Str → Bool
reads dash [] = true
reads dash (c ∷ s) =
    if c == b'-' then not dash && reads true s else (is_lower c || is_digit c) && reads false s

-- The automaton's state behind a text.
unfoldable pub after : Bool → Str → Bool
after dash [] = dash
after dash (c ∷ s) = after (c == b'-') s

pub reads-append : (d : Bool) (s t : Str) → reads d (s ++ t) ≡ reads d s && reads (after d s) t
unfolding reads after
reads-append d [] t = refl
reads-append d (c ∷ s) t = ground (arith, reads-append true s t, reads-append false s t)

pub after-append : (d : Bool) (s t : Str) → after d (s ++ t) ≡ after (after d s) t
unfolding after
after-append d [] t = refl
after-append d (c ∷ s) t = after-append (c == b'-') s t

after-ends : (d : Bool) (c : ℕ) (s : Str) → after d (c ∷ s) ≡ ends_with_char b'-' (c ∷ s)
unfolding after
after-ends d c [] = refl
after-ends d c (b ∷ s) = after-ends (c == b'-') b s

all-reads :
    (d : Bool) (s : Str)
    → reads d s
      ≡ all is_slug_byte s && not (d && starts_with_char b'-' s) && not (contains s (codes "--"))
unfolding reads contains
all-reads d [] = ground arith
all-reads d (c ∷ []) = ground arith
all-reads d (c ∷ b ∷ s) = ground (arith, all-reads true (b ∷ s), all-reads false (b ∷ s))

-- `validate_slug` accepts exactly the texts of one to 48 bytes in which single dashes separate
-- words of lowercase letters and digits.
pub validate_slug_iff :
    (s : Str)
    → (validate_slug s ≡ ok) ↔ (
        (0 < length s) × (length s ≤ slug_max_len) × (reads true s ≡ true) × (after true s ≡ false))
unfolding validate_slug
validate_slug_iff [] = ground arith
validate_slug_iff (c ∷ s) = ground (arith, all-reads true (c ∷ s), after-ends true c s)
