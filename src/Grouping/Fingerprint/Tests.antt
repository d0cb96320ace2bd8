-- ===== src/Grouping/Fingerprint/Tests.antt =====
-- Events of the source's own tests, and the theorems at them.
use soika.Base.{ℕ, ◌≡◌, ◌⊎◌, refl, Bool, true, false, none, some, List, [], ◌∷◌, all, length}
use soika.Base.Int.{pos}
use soika.Base.Text.{Str, codes, str_eq, trim, trim_by, trim_start_by}
use soika.Grouping.Stacktrace.{Frame, Stacktrace, NormalizedEvent, is_in_app, in_app_frames}
use soika.Grouping.Fingerprint.{
  join, unit_separator, encode_utf8, as_bytes, fnv_offset, fnv, hex, hash_hex, is_placeholder,
  fingerprint_normalized, default_material, default_fingerprint,
}
use soika.Grouping.Fingerprint.Hash.{from_hex, is_lower_hex, hash_hex-IsRead}
use soika.Grouping.Fingerprint.Join.{has_no_separator, parts_of}
use soika.Grouping.Fingerprint.Custom.{
  IsDefault, AreParts, fingerprint_normalized-IsDefault, fingerprint_normalized-parts_of,
}
use soika.Grouping.Fingerprint.Default.{fingerprint_normalized_cong}

abbrev frame : Str → ℕ → Bool → Frame
frame function line in_app = record {
  module_name = some (codes "app.web");
  function = some function;
  filename = none;
  abs_path = none;
  lineno = some (pos line);
  colno = none;
  in_app = some in_app;
  context_line = none;
  pre_context = [];
  post_context = [];
}

abbrev handler : ℕ → Str → Stacktrace
handler line system = record {
  frames = frame system 3 false ∷ frame (codes "handle") line true ∷ [];
}

abbrev event : Stacktrace → Str → List Str → NormalizedEvent
event st value fingerprint = record {
  exception_type = some (codes "ValueError");
  exception_value = some value;
  message = none;
  level = none;
  stacktrace = some st;
  fingerprint = fingerprint;
}

fingerprint_normalized_cong_example :
    fingerprint_normalized (event (handler 10 (codes "lib_a")) (codes "boom") [])
    ≡ fingerprint_normalized (event (handler 999 (codes "lib_b")) (codes "bang") [])
unfolding in_app_frames is_in_app
fingerprint_normalized_cong_example =
    fingerprint_normalized_cong (event (handler 10 (codes "lib_a")) (codes "boom") [])
      (event (handler 999 (codes "lib_b")) (codes "bang") []) (handler 10 (codes "lib_a"))
      (handler 999 (codes "lib_b")) (codes "ValueError") refl refl refl refl refl refl refl
      ((refl, refl, refl, refl), tt)

abbrev spaced : NormalizedEvent
spaced = event (handler 10 (codes "lib")) (codes "boom") (codes " {{default}}" ∷ [])

fingerprint_normalized-IsDefault_example :
    (IsDefault (codes " {{default}}")
      × (fingerprint_normalized spaced ≡ default_fingerprint spaced))
    ⊎ (¬ IsDefault (codes " {{default}}")
        × (fingerprint_normalized spaced ≡ hash_hex (codes " {{default}}")))
fingerprint_normalized-IsDefault_example =
    fingerprint_normalized-IsDefault spaced (codes " {{default}}") refl

spaced_placeholder : is_placeholder (codes " {{default}}") ≡ true
unfolding is_placeholder str_eq trim trim_by trim_start_by
spaced_placeholder = refl

abbrev split_by_tenant : NormalizedEvent
split_by_tenant =
    event (handler 10 (codes "lib")) (codes "boom") (codes "{{ default }}" ∷ codes "acme" ∷ [])

fingerprint_normalized-parts_of_example :
    (text : Str) × (parts : List Str) × (fingerprint_normalized split_by_tenant ≡ hash_hex text)
    × AreParts (default_material split_by_tenant) (codes "{{ default }}" ∷ codes "acme" ∷ []) parts
    × (all has_no_separator parts ≡ true → parts_of text ≡ parts)
fingerprint_normalized-parts_of_example = fingerprint_normalized-parts_of split_by_tenant refl

hash_hex-IsRead_example :
    (length (hash_hex (codes "café")) ≡ 16)
    × (all is_lower_hex (hash_hex (codes "café")) ≡ true)
    × (from_hex 0 (hash_hex (codes "café")) ≡ fnv fnv_offset (as_bytes (codes "café")))
hash_hex-IsRead_example = hash_hex-IsRead (codes "café")

-- The offset and a published value of the 64-bit FNV-1a hash.
empty_hash : hash_hex [] ≡ codes "cbf29ce484222325"
unfolding hash_hex fnv hex as_bytes
empty_hash = refl

letter_hash : hash_hex (codes "a") ≡ codes "af63dc4c8601ec8c"
unfolding hash_hex fnv hex as_bytes encode_utf8
letter_hash = refl

-- A component may itself hold the separator, and then two custom fingerprints meet.
meeting :
    join unit_separator ((97 ∷ 0x1f ∷ 98 ∷ []) ∷ [])
    ≡ join unit_separator (codes "a" ∷ codes "b" ∷ [])
unfolding join
meeting = refl
