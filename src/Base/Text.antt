-- ===== src/Base/Text.antt =====
-- Text as the list of its characters' code points (its bytes, where the source walks bytes), with
-- the tests of the standard library that the source applies to it.
use Prim.Native.Nat.{ℕ, ◌+◌}
use Prim.Native.Char.{code}
use Prim.Native.String.{String}
use mathlib.Core.Path.{◌≡◌, refl}
use mathlib.Core.Logic.{◌↔◌, ◌≢◌}
use mathlib.Core.Bool.{Bool, true, false, ◌&&◌, ◌||◌}
use mathlib.Core.Option.{Option, none, some}
use mathlib.Core.List.{List, [], ◌∷◌, map, reverse}
use native.Mathlib.Omega.{arith}
use soika.Base.Tests.{leb, ◌==◌, if◌then◌else◌, not_true→false}

abbrev pub Str : Type 0
Str = List ℕ

-- A literal of the source.
abbrev pub codes : String → Str
codes (String.◌∷◌ letter rest) = code letter ∷ codes rest
codes String.[] = []

unfoldable pub str_eq : Str → Str → Bool
str_eq [] [] = true
str_eq (a ∷ s) (b ∷ t) = (a == b) && str_eq s t
str_eq _ _ = false

pub str_eq_iff : (s t : Str) → (str_eq s t ≡ true) ↔ (s ≡ t)
unfolding str_eq
str_eq_iff [] [] = ground arith
str_eq_iff [] (b ∷ t) = ground arith
str_eq_iff (a ∷ s) [] = ground arith
str_eq_iff (a ∷ s) (b ∷ t) = ground (arith, str_eq_iff s t)

pub str_eq_refl : (s : Str) → str_eq s s ≡ true
str_eq_refl s = (str_eq_iff s s).1 refl

pub str_eq_ne : (s t : Str) → s ≢ t → str_eq s t ≡ false
str_eq_ne s t h = not_true→false (str_eq s t) (λ e. h ((str_eq_iff s t).0 e))

pub ne_of_str_eq : (s t : Str) → str_eq s t ≡ false → s ≢ t
ne_of_str_eq s t h e = cc (h, (str_eq_iff s t).1 e)

-- `starts_with`.
unfoldable pub starts_with : Str → Str → Bool
starts_with s [] = true
starts_with [] (b ∷ t) = false
starts_with (a ∷ s) (b ∷ t) = (a == b) && starts_with s t

-- `contains` of a text in a text.
unfoldable pub contains : Str → Str → Bool
unfolding starts_with
contains [] t = starts_with [] t
contains (a ∷ s) t = starts_with (a ∷ s) t || contains s t

-- `is_ascii_lowercase`, `is_ascii_digit` and so on, on a code point or a byte.
abbrev pub is_lower : ℕ → Bool
is_lower byte = leb b'a' byte && leb byte b'z'

abbrev pub is_upper : ℕ → Bool
is_upper c = leb b'A' c && leb c b'Z'

abbrev pub is_digit : ℕ → Bool
is_digit c = leb b'0' c && leb c b'9'

abbrev pub is_alpha : ℕ → Bool
is_alpha c = is_lower c || is_upper c

abbrev pub is_alnum : ℕ → Bool
is_alnum c = is_alpha c || is_digit c

-- `to_ascii_lowercase`.
abbrev pub to_lower : ℕ → ℕ
to_lower c = if is_upper c then c + 32 else c

-- `trim_start_matches` and `trim_matches` by a test on characters.
unfoldable pub trim_start_by : (ℕ → Bool) → Str → Str
trim_start_by p [] = []
trim_start_by p (c ∷ s) = let rest = trim_start_by p s in if p c then rest else c ∷ s

unfoldable pub trim_by : (ℕ → Bool) → Str → Str
unfolding trim_start_by
trim_by p s = reverse (trim_start_by p (reverse (trim_start_by p s)))

-- `char::is_whitespace`: the characters with the Unicode property White_Space.
abbrev pub is_whitespace : ℕ → Bool
is_whitespace c =
    (leb 9 c && leb c 13)
    || c == 32
    || c == 0x85
    || c == 0xa0
    || c == 0x1680
    || (leb 0x2000 c && leb c 0x200a)
    || c == 0x2028
    || c == 0x2029
    || c == 0x202f
    || c == 0x205f
    || c == 0x3000

-- `str::trim`.
unfoldable pub trim : Str → Str
unfolding trim_by
trim s = trim_by is_whitespace s

-- The text behind as many characters as a pattern has.
abbrev pub skip : Str → Str → Str
skip [] s = s
skip (b ∷ p) [] = []
skip (b ∷ p) (c ∷ s) = skip p s

abbrev pub push_before : ℕ → Option (Str × Str) → Option (Str × Str)
push_before c none = none
push_before c (some (before, behind)) = some (c ∷ before, behind)

-- What stands before the first occurrence of a pattern and what stands behind it: `split_once`, and
-- `find` with the slices on its two sides.
unfoldable pub split_once : Str → Str → Option (Str × Str)
unfolding starts_with
split_once [] p = if starts_with [] p then some ([], []) else none
split_once (c ∷ s) p =
    let rest = split_once s p in
    if starts_with (c ∷ s) p then some ([], skip p (c ∷ s)) else push_before c rest

-- `str::len`: the bytes of a text in UTF-8.
abbrev pub len_utf8 : ℕ → ℕ
len_utf8 c = if leb c 0x7f then 1 else if leb c 0x7ff then 2 else if leb c 0xffff then 3 else 4

unfoldable pub byte_len : Str → ℕ
byte_len [] = 0
byte_len (c ∷ s) = len_utf8 c + byte_len s

-- `trim_end_matches` of a character.
unfoldable pub trim_end : ℕ → Str → Str
unfolding trim_start_by
trim_end c s = reverse (trim_start_by (λ x. x == c) (reverse s))

abbrev pub eq_ignore_ascii_case : Str → Str → Bool
eq_ignore_ascii_case s t = str_eq (map to_lower s) (map to_lower t)
