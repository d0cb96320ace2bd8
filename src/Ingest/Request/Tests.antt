-- ===== src/Ingest/Request/Tests.antt =====
-- Requests of the source's own tests, and the theorem at a body that is not compressed.
use soika.Base.{◌≡◌, refl, true, none, some, [], if◌then◌else◌}
use soika.Base.Text.{codes, str_eq, trim, trim_by, trim_start_by, starts_with, split_once}
use soika.Ingest.Request.{
  split, find_value, sentry_key_from_query, parse_sentry_auth_key, Headers, extract_dsn_key,
  Decoders, Stream, decode_sniffed, decode_body, normalize_event_id,
}
use soika.Ingest.Request.Body.{IsDecoded, decode_body-IsDecoded}

abbrev headers : Headers
headers name =
    if str_eq name (codes "x-sentry-auth")
    then some (codes "Sentry sentry_version=7, Sentry_Key=\"deadbeef\", sentry_client=x")
    else if str_eq name (codes "x-sentry-key")
    then some (codes "fromkey")
    else none

auth_header_first :
    extract_dsn_key headers (some (codes "sentry_key=fromquery")) ≡ some (codes "deadbeef")
unfolding extract_dsn_key parse_sentry_auth_key sentry_key_from_query split find_value split_once
    starts_with str_eq trim trim_by trim_start_by
auth_header_first = refl

abbrev none_set : Headers
none_set name = none

query_next :
    extract_dsn_key none_set (some (codes "foo=bar&sentry_key=fromquery&x=1"))
    ≡ some (codes "fromquery")
unfolding extract_dsn_key parse_sentry_auth_key sentry_key_from_query split find_value split_once
    starts_with str_eq trim trim_by trim_start_by
query_next = refl

dashes : normalize_event_id (codes " FC6D-8c0c ") ≡ codes "fc6d8c0c"
unfolding normalize_event_id trim trim_by trim_start_by
dashes = refl

abbrev nothing : Stream
nothing = record { bytes = []; fails = true }

abbrev decoders : Decoders
decoders = record { gzip = λ body. nothing; zlib = λ body. nothing }

decode_body-IsDecoded_example : IsDecoded decoders (codes "{}") (codes "{}")
unfolding decode_body decode_sniffed
decode_body-IsDecoded_example =
    decode_body-IsDecoded decoders (codes "{}") none_set (codes "{}") refl
