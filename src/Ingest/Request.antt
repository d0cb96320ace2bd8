-- ===== src/Ingest/Request.antt =====
-- src/ingest/handlers.rs: the key and the body of a request. The two decoders belong to the library
-- `flate2`: a decoder is given by the bytes it yields and whether it then fails.
mod Tests
pub mod Body
use soika.Base.{
  ℕ, ◌+◌, ◌*◌, Bool, true, false, ◌||◌, ◌&&◌, not, Option, none, some, List, [], ◌∷◌, ◌++◌, map,
  filter, length, take, is_empty, if◌then◌else◌, ltb, leb, ◌==◌,
}
use soika.Base.Text.{Str, codes, eq_ignore_ascii_case, str_eq, to_lower, trim, trim_by, split_once}
use soika.Base.Result.{Result, ok, err}

-- `split` at the characters that pass a test.
abbrev push_first : ℕ → List Str → List Str
push_first c [] = (c ∷ []) ∷ []
push_first c (part ∷ parts) = (c ∷ part) ∷ parts

unfoldable pub split : (ℕ → Bool) → Str → List Str
split p [] = [] ∷ []
split p (c ∷ s) = let rest = split p s in if p c then [] ∷ rest else push_first c rest

-- The value of the first part `key=value` whose key passes a test.
unfoldable pub find_value : (Str → Bool) → List Str → Option Str
unfolding split_once
find_value is_key [] = none
find_value is_key (part ∷ parts) =
    let rest = find_value is_key parts in
    elim (split_once part (codes "=")) [
      | none ↦ rest
      | some (key, value) ↦ if is_key key then some value else rest
    ]

-- `map` by a text function and `filter` of what is not empty.
abbrev non_empty_by : (Str → Str) → Option Str → Option Str
non_empty_by f none = none
non_empty_by f (some v) = if is_empty (f v) then none else some (f v)

unfoldable pub sentry_key_from_query : Str → Option Str
unfolding split find_value
sentry_key_from_query query =
    non_empty_by trim
      (find_value (λ k. str_eq k (codes "sentry_key")) (split (λ c. c == b'&') query))

abbrev is_auth_separator : ℕ → Bool
is_auth_separator c = c == b',' || c == b' ' || c == 9

unfoldable pub parse_sentry_auth_key : Str → Option Str
unfolding split find_value
parse_sentry_auth_key value =
    non_empty_by (λ v. trim_by (λ c. c == 34) (trim v))
      (find_value (λ k. eq_ignore_ascii_case (trim k) (codes "sentry_key"))
        (map trim (split is_auth_separator value)))

-- A header's value, where it is text.
abbrev pub Headers : Type 0
Headers = Str → Option Str

abbrev pub and_then : Option Str → (Str → Option Str) → Option Str
and_then none f = none
and_then (some s) f = f s

abbrev or_else : Option Str → Option Str → Option Str
or_else none other = other
or_else (some s) other = some s

unfoldable pub extract_dsn_key : Headers → Option Str → Option Str
unfolding parse_sentry_auth_key sentry_key_from_query
extract_dsn_key headers query =
    or_else (and_then (headers (codes "x-sentry-auth")) parse_sentry_auth_key)
      (or_else (and_then query sentry_key_from_query) (headers (codes "x-sentry-key")))

pub data DecodeError : Type 0 where
  corrupt too_large : DecodeError

-- What a decoder yields of a body: its bytes, up to the end of the stream or a failure.
pub record Stream : Type 0 where
  pub bytes : Str
  pub fails : Bool

pub record Decoders : Type 0 where
  pub gzip : Str → Stream
  pub zlib : Str → Stream

abbrev pub max_decompressed_body : ℕ
max_decompressed_body = 20 * 1024 * 1024

-- `take` of the limit and one byte more, and `read_to_end`: a failure behind the limit is not met.
unfoldable pub read_capped : Stream → Result DecodeError Str
read_capped decoder =
    let out = take (max_decompressed_body + 1) decoder.bytes in
    if decoder.fails && leb (length decoder.bytes) max_decompressed_body
    then err corrupt
    else if ltb max_decompressed_body (length out)
    then err too_large
    else ok out

abbrev starts_gzip : Str → Bool
starts_gzip (a ∷ (b ∷ body)) = a == 0x1f && b == 0x8b
starts_gzip _ = false

abbrev starts_zlib : Str → Bool
starts_zlib (a ∷ (b ∷ body)) = a == 0x78 && (b == 0x01 || b == 0x9c || b == 0xda || b == 0x5e)
starts_zlib _ = false

module _ (decoders : Decoders) where
  unfoldable pub decode_sniffed : Str → Result DecodeError Str
  unfolding read_capped
  decode_sniffed body =
      if starts_gzip body
      then read_capped (decoders.gzip body)
      else if starts_zlib body
      then read_capped (decoders.zlib body)
      else ok body

  abbrev is_one_of : Option Str → Str → Str → Bool
  is_one_of none a b = false
  is_one_of (some s) a b = str_eq (map to_lower s) a || str_eq (map to_lower s) b

  unfoldable pub decode_body : Headers → Str → Result DecodeError Str
  unfolding decode_sniffed
  decode_body headers body =
      let encoding = headers (codes "content-encoding") in
      if is_one_of encoding (codes "gzip") (codes "x-gzip")
      then read_capped (decoders.gzip body)
      else if is_one_of encoding (codes "deflate") (codes "zlib")
      then read_capped (decoders.zlib body)
      else decode_sniffed body

-- `replace` of a character by nothing.
unfoldable pub normalize_event_id : Str → Str
normalize_event_id raw = map to_lower (filter (λ c. not (c == b'-')) (trim raw))
