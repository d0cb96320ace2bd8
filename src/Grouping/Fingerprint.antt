-- ===== src/Grouping/Fingerprint.antt =====
-- src/grouping/fingerprint.rs, and `frame_signature` of src/grouping/normalize.rs: the fingerprint,
-- the title and the culprit of an event.
pub mod Hash
pub mod Default
pub mod Join
pub mod Custom
mod Tests
use soika.Base.{
  ℕ, zero, suc, ◌+◌, ◌-◌, ◌*◌, ◌/◌, ◌%◌, ◌^◌, bit_xor, Bool, true, false, ◌||◌, ◌&&◌, not, Option,
  none, some, List, [], ◌∷◌, ◌++◌, map, length, take, is_empty, if◌then◌else◌, ltb, leb, ◌==◌,
}
use soika.Base.Int.{ℤ}
use soika.Base.Text.{Str, codes, str_eq, trim}
use soika.Grouping.Normalize.{
  normalize_module, normalize_function, normalize_path, normalize_type, normalize_message,
}
use soika.Grouping.Stacktrace.{
  Frame, Stacktrace, NormalizedEvent, filter_non_empty, filter_map, or_else, ◌>>?◌, in_app_frames,
  most_relevant_frame, location,
}

abbrev pub map_some : (Str → Str) → Option Str → Option Str
map_some f none = none
map_some f (some s) = some (f s)

unfoldable pub frame_signature : Frame → Option Str
unfolding normalize_module normalize_function normalize_path
frame_signature frame =
    let name = filter_non_empty (map_some normalize_module frame.module_name) in
    let path = filter_non_empty (map_some normalize_path (or_else frame.filename frame.abs_path)) in
    elim (filter_non_empty (map_some normalize_function frame.function)) [
      | some function ↦ elim name [
        | some m ↦ some (m ++ (codes "." ++ function))
        | none ↦ some function
      ]
      | none ↦ elim name [
        | some m ↦ elim path [ some p ↦ some (m ++ (codes "@" ++ p)) | none ↦ some m ]
        | none ↦ path
      ]
    ]

-- `join` of the standard library: a separator between each two parts.
unfoldable pub join : Str → List Str → Str
join separator [] = []
join separator (part ∷ []) = part
join separator (part ∷ (more ∷ parts)) = part ++ (separator ++ join separator (more ∷ parts))

-- `as_bytes`: a character in UTF-8.
unfoldable pub encode_utf8 : ℕ → Str
encode_utf8 c =
    if leb c 0x7f
    then c ∷ []
    else if leb c 0x7ff
    then (0xc0 + c / 64) ∷ (0x80 + c % 64) ∷ []
    else if leb c 0xffff
    then (0xe0 + c / 4096) ∷ (0x80 + c / 64 % 64) ∷ (0x80 + c % 64) ∷ []
    else (0xf0 + c / 262144) ∷ (0x80 + c / 4096 % 64) ∷ (0x80 + c / 64 % 64) ∷ (0x80 + c % 64) ∷ []

unfoldable pub as_bytes : Str → Str
unfolding encode_utf8
as_bytes [] = []
as_bytes (c ∷ s) = encode_utf8 c ++ as_bytes s

abbrev pub fnv_offset : ℕ
fnv_offset = 0xcbf29ce484222325

abbrev pub fnv_prime : ℕ
fnv_prime = 0x00000100000001b3

-- The loop of `hash_hex`, on a `u64`.
unfoldable pub fnv : ℕ → Str → ℕ
fnv hash [] = hash
fnv hash (byte ∷ bytes) = fnv (bit_xor hash byte * fnv_prime % 2 ^ 64) bytes

abbrev pub hex_digit : ℕ → ℕ
hex_digit n = if leb n 9 then b'0' + n else b'a' + (n - 10)

-- `{:016x}` of a `u64`: that many digits, the most significant first.
unfoldable pub hex : ℕ → ℕ → Str
hex zero n = []
hex (suc width) n = hex width (n / 16) ++ (hex_digit (n % 16) ∷ [])

unfoldable pub hash_hex : Str → Str
unfolding fnv hex as_bytes
hash_hex input = hex 16 (fnv fnv_offset (as_bytes input))

unfoldable pub grouping_frame_signatures : Stacktrace → List Str
unfolding in_app_frames frame_signature
grouping_frame_signatures stacktrace =
    let in_app = in_app_frames stacktrace in
    map (λ signature. codes "frame:" ++ signature)
      (filter_map frame_signature (if is_empty in_app then stacktrace.frames else in_app))

-- `default_material` up to its last resort: the type of the exception and the frames.
unfoldable pub stack_components : NormalizedEvent → List Str
unfolding normalize_type grouping_frame_signatures
stack_components event =
    (elim (filter_non_empty event.exception_type) as (λ o. List Str) [
      | none ↦ []
      | some ty ↦ (codes "type:" ++ normalize_type ty) ∷ []
    ])
    ++ (elim event.stacktrace as (λ o. List Str) [
      | none ↦ []
      | some st ↦ grouping_frame_signatures st
    ])

unfoldable pub message_components : NormalizedEvent → List Str
unfolding normalize_message
message_components event = elim (filter_non_empty event.message) [
  | some msg ↦ (codes "message:" ++ normalize_message msg) ∷ []
  | none ↦ elim (filter_non_empty event.exception_value) [
    | some val ↦ (codes "value:" ++ normalize_message val) ∷ []
    | none ↦ []
  ]
]

unfoldable pub default_material : NormalizedEvent → Str
unfolding stack_components message_components join
default_material event =
    let components = stack_components event in
    join (codes "\n") (if is_empty components then message_components event else components)

unfoldable pub default_fingerprint : NormalizedEvent → Str
unfolding hash_hex default_material
default_fingerprint event = hash_hex (default_material event)

unfoldable pub is_placeholder : Str → Bool
is_placeholder component =
    str_eq (trim component) (codes "{{ default }}") || str_eq (trim component) (codes "{{default}}")

-- A component of a custom fingerprint, the placeholder replaced.
unfoldable pub part_of : Str → Str → Str
unfolding is_placeholder
part_of material component = if is_placeholder component then material else component

abbrev pub unit_separator : Str
unit_separator = 0x1f ∷ []

abbrev pub is_lone : Str → List Str → Bool
is_lone material [] = false
is_lone material (part ∷ []) = str_eq part material
is_lone material (part ∷ (more ∷ parts)) = false

unfoldable pub custom_fingerprint : NormalizedEvent → Str
unfolding default_material part_of hash_hex join
custom_fingerprint event =
    let material = default_material event in
    let parts = map (part_of material) event.fingerprint in
    if is_lone material parts then hash_hex material else hash_hex (join unit_separator parts)

-- `has_custom_fingerprint` and `fingerprint_normalized`.
unfoldable pub fingerprint_normalized : NormalizedEvent → Str
unfolding custom_fingerprint default_fingerprint
fingerprint_normalized event =
    if not (is_empty event.fingerprint) then custom_fingerprint event else default_fingerprint event

unfoldable pub truncate_title : Str → Str
truncate_title s =
    let trimmed = trim s in
    if leb (length trimmed) 200 then trimmed else take 200 trimmed ++ codes "…"

unfoldable pub title_from_normalized : NormalizedEvent → Str
unfolding truncate_title normalize_message
title_from_normalized event =
    let value = filter_non_empty event.exception_value in
    elim (filter_non_empty event.exception_type) [
      | some ty ↦ elim value [
        | some v ↦ ty ++ (codes ": " ++ truncate_title (normalize_message v))
        | none ↦ ty
      ]
      | none ↦ elim (filter_non_empty event.message) [
        | some msg ↦ truncate_title (normalize_message msg)
        | none ↦ elim value [
          | some v ↦ truncate_title (normalize_message v)
          | none ↦ codes "Unknown error"
        ]
      ]
    ]

unfoldable pub culprit_from_normalized : (ℤ → Str) → NormalizedEvent → Option Str
unfolding most_relevant_frame location
culprit_from_normalized show event = event.stacktrace >>? most_relevant_frame >>? location show
