-- ===== src/Grouping/Fingerprint/Hash.antt =====
-- src/grouping/fingerprint.rs: the hash as hexadecimal text.
use soika.Base.{
  ℕ, zero, suc, ◌+◌, ◌-◌, ◌*◌, ◌/◌, ◌%◌, ◌^◌, ◌<◌, ◌≡◌, refl, ◌∙◌, arith, Bool, true, ◌||◌, ◌&&◌,
  [], ◌∷◌, ◌++◌, all, length, if◌then◌else◌, leb, bit_xor, length-append,
}
use soika.Base.Text.{Str, is_digit}
use soika.Grouping.Fingerprint.{as_bytes, fnv_offset, fnv_prime, fnv, hex_digit, hex, hash_hex}

-- The value of a lowercase hexadecimal digit, and of a text of them.
abbrev pub digit_value : ℕ → ℕ
digit_value c = if leb c b'9' then c - b'0' else c - b'a' + 10

abbrev pub from_hex : ℕ → Str → ℕ
from_hex value [] = value
from_hex value (c ∷ s) = from_hex (value * 16 + digit_value c) s

abbrev pub is_lower_hex : ℕ → Bool
is_lower_hex c = is_digit c || (leb b'a' c && leb c b'f')

digit_value-hex_digit : (n : ℕ) → n < 16 → digit_value (hex_digit n) ≡ n
digit_value-hex_digit n h = ground arith

is_lower_hex-hex_digit : (n : ℕ) → n < 16 → is_lower_hex (hex_digit n) ≡ true
is_lower_hex-hex_digit n h = ground arith

from_hex-append :
    (v : ℕ) (s : Str) (c : ℕ) → from_hex v (s ++ (c ∷ [])) ≡ from_hex v s * 16 + digit_value c
from_hex-append v [] c = refl
from_hex-append v (b ∷ s) c = from_hex-append (v * 16 + digit_value b) s c

all_hex-append : (s t : Str) → all is_lower_hex (s ++ t) ≡ all is_lower_hex s && all is_lower_hex t
all_hex-append [] t = refl
all_hex-append (c ∷ s) t =
    rw (all_hex-append s t) (assoc (is_lower_hex c) (all is_lower_hex s) (all is_lower_hex t))
  where
    assoc : (a b d : Bool) → a && (b && d) ≡ (a && b) && d
    assoc a b d = ground arith

abbrev values : ℕ → ℕ
values zero = 1
values (suc width) = values width * 16

hex-IsRead : (width n : ℕ) → n < values width → from_hex 0 (hex width n) ≡ n
unfolding hex
hex-IsRead zero n h = omega arith
hex-IsRead (suc width) n h =
    from_hex-append 0 (hex width (n / 16)) (hex_digit (n % 16))
    ∙ omega (
      arith,
      hex-IsRead width (n / 16) (omega arith),
      digit_value-hex_digit (n % 16) (omega arith),
    )

all-hex : (width n : ℕ) → all is_lower_hex (hex width n) ≡ true
unfolding hex
all-hex zero n = refl
all-hex (suc width) n =
    rw
      (
        all_hex-append (hex width (n / 16)) (hex_digit (n % 16) ∷ []),
        all-hex width (n / 16),
        is_lower_hex-hex_digit (n % 16) (omega arith),
      )
      refl

length-hex : (width n : ℕ) → length (hex width n) ≡ width
unfolding hex
length-hex zero n = refl
length-hex (suc width) n =
    omega (
      arith,
      length-append (hex width (n / 16)) (hex_digit (n % 16) ∷ []),
      length-hex width (n / 16),
    )

fnv-bound : (hash : ℕ) (bytes : Str) → hash < 2 ^ 64 → fnv hash bytes < 2 ^ 64
unfolding fnv
fnv-bound hash [] h = h
fnv-bound hash (b ∷ bytes) h = fnv-bound (bit_xor hash b * fnv_prime % 2 ^ 64) bytes (omega arith)

-- A fingerprint is 16 lowercase hexadecimal digits, and they are the 64-bit hash of the bytes.
pub hash_hex-IsRead :
    (input : Str)
    → (length (hash_hex input) ≡ 16)
      × (all is_lower_hex (hash_hex input) ≡ true)
      × (from_hex 0 (hash_hex input) ≡ fnv fnv_offset (as_bytes input))
unfolding hash_hex
hash_hex-IsRead input =
    let hash = fnv fnv_offset (as_bytes input) in
    (
      length-hex 16 hash,
      all-hex 16 hash,
      hex-IsRead 16 hash (fnv-bound fnv_offset (as_bytes input) (omega arith)),
    )
