-- ===== src/Grouping/Normalize/Tests.antt =====
-- Messages, symbols and paths of the source's own tests, and the theorem at one of them.
use soika.Base.{◌≡◌, refl, true}
use soika.Base.Text.{codes, trim, trim_by, trim_start_by, starts_with, split_once, byte_len}
use soika.Grouping.Normalize.{
  all_enumerated, is_uuid, collapse_digit_runs, normalize_token, message_step, message_loop,
  normalize_message, rsplit_once, strip_rust_hash_suffix, is_hash_like, split_dir, strip_segment,
  strip_bundle_hash, normalize_function, normalize_path,
}
use soika.Grouping.Normalize.Digits.{has_no_digit, normalize_message_no_digit}

spaces : normalize_message (codes " user  1 not found") ≡ codes "user <int> not found"
unfolding all_enumerated is_uuid collapse_digit_runs normalize_token message_step message_loop
    normalize_message trim trim_by trim_start_by
spaces = refl

uuid :
    normalize_message (codes "session 550e8400-e29b-41d4-a716-446655440000 expired")
    ≡ codes "session <uuid> expired"
unfolding all_enumerated is_uuid collapse_digit_runs normalize_token message_step message_loop
    normalize_message trim trim_by trim_start_by
uuid = refl

token :
    normalize_message (codes "Not found: /download/oW2Euf6y8") ≡ codes "Not found: /download/<id>"
unfolding all_enumerated is_uuid collapse_digit_runs normalize_token message_step message_loop
    normalize_message trim trim_by trim_start_by
token = refl

rust_hash :
    normalize_function (codes "core::ptr::drop_in_place::h1a2b3c4d5e6f7a8b+0x2a")
    ≡ codes "core::ptr::drop_in_place::h1a2b3c4d5e6f7a8b"
unfolding normalize_function strip_rust_hash_suffix rsplit_once starts_with split_once byte_len trim
    trim_by trim_start_by
rust_hash = refl

bundle_hash : normalize_path (codes "assets/main.4f3a9b2c.js?v=1") ≡ codes "assets/main.js"
unfolding normalize_path strip_bundle_hash strip_segment split_dir is_hash_like rsplit_once
    starts_with split_once byte_len trim trim_by trim_start_by
bundle_hash = refl

normalize_message_no_digit_example :
    has_no_digit (normalize_message (codes "md5 v1.2 id 42")) ≡ true
normalize_message_no_digit_example = normalize_message_no_digit (codes "md5 v1.2 id 42")
