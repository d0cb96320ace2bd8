-- ===== src/Grouping/Normalize.antt =====
-- src/grouping/normalize.rs: what is left of messages, symbols and paths for grouping. The loop over
-- a message walks its characters: where the source moves its index on by more than one character,
-- the walk passes over as many.
pub mod Digits
mod Tests
use soika.Base.{
  ℕ, zero, suc, ◌+◌, ◌-◌, Bool, true, false, ◌||◌, ◌&&◌, not, Option, none, some, List, [], ◌∷◌,
  ◌++◌, all, any, length, take, is_empty, if◌then◌else◌, ltb, leb, ◌==◌,
}
use soika.Base.Text.{
  Str, codes, str_eq, is_alnum, is_alpha, is_digit, is_whitespace, trim, split_once, starts_with,
  skip, byte_len, push_before,
}

abbrev pub is_hexdigit : ℕ → Bool
is_hexdigit c = is_digit c || (leb b'a' c && leb c b'f') || (leb b'A' c && leb c b'F')

-- The byte that `is_uuid` allows at an index.
abbrev uuid_byte : ℕ → ℕ → Bool
uuid_byte idx b =
    if idx == 8 || idx == 13 || idx == 18 || idx == 23 then b == b'-' else is_hexdigit b

unfoldable pub all_enumerated : (ℕ → ℕ → Bool) → ℕ → Str → Bool
all_enumerated p idx [] = true
all_enumerated p idx (b ∷ s) = p idx b && all_enumerated p (suc idx) s

unfoldable pub is_uuid : Str → Bool
unfolding all_enumerated
is_uuid s = (length s == 36) && all_enumerated uuid_byte 0 s

unfoldable pub collapse_digit_runs : Bool → Str → Str
collapse_digit_runs prev_digit [] = []
collapse_digit_runs prev_digit (c ∷ token) =
    (if is_digit c then (if prev_digit then [] else codes "<int>") else (c ∷ []))
    ++ collapse_digit_runs (is_digit c) token

unfoldable pub normalize_token : Str → Str
unfolding collapse_digit_runs
normalize_token token =
    let has_digit = any is_digit token in
    let has_alpha = any is_alpha token in
    if has_digit && not has_alpha
    then codes "<int>"
    else if has_digit && has_alpha && leb 6 (length token)
    then codes "<id>"
    else collapse_digit_runs false token

-- The characters at the start that pass a test.
abbrev pub take_while : (ℕ → Bool) → Str → Str
take_while p [] = []
take_while p (c ∷ s) = let rest = take_while p s in if p c then c ∷ rest else []

-- One character of the loop: what it appends, how many characters behind it are passed over, and
-- whether a space came last.
pub record Round : Type 0 where
  pub out : Str
  pub passed : ℕ
  pub prev_space : Bool

unfoldable pub message_step : ℕ → Bool → Str → Round
unfolding is_uuid normalize_token
message_step passed prev_space [] = record { out = []; passed = 0; prev_space = prev_space }
message_step (suc passed) prev_space (c ∷ s) = record {
  out = [];
  passed = passed;
  prev_space = prev_space;
}
message_step zero prev_space (c ∷ s) =
    if is_whitespace c
    then record { out = if prev_space then [] else codes " "; passed = 0; prev_space = true }
    else if is_uuid (take 36 (c ∷ s))
    then record { out = codes "<uuid>"; passed = 35; prev_space = false }
    else if is_alnum c
    then (let token = take_while is_alnum (c ∷ s) in
        record { out = normalize_token token; passed = length token - 1; prev_space = false })
    else record { out = c ∷ []; passed = 0; prev_space = false }

unfoldable pub message_loop : ℕ → Bool → Str → Str
unfolding message_step
message_loop passed prev_space [] = []
message_loop passed prev_space (c ∷ s) =
    let round = message_step passed prev_space (c ∷ s) in
    round.out ++ message_loop round.passed round.prev_space s

unfoldable pub normalize_message : Str → Str
unfolding message_loop
normalize_message message = trim (message_loop 0 false (trim message))

-- The parts before and behind the last occurrence of a pattern: `rfind` and the slices beside it.
unfoldable pub rsplit_once : Str → Str → Option (Str × Str)
unfolding starts_with
rsplit_once [] p = none
rsplit_once (c ∷ s) p = elim (rsplit_once s p) [
  | some (before, behind) ↦ some (c ∷ before, behind)
  | none ↦ if starts_with (c ∷ s) p then some ([], skip p (c ∷ s)) else none
]

unfoldable pub strip_rust_hash_suffix : Str → Str
unfolding rsplit_once
strip_rust_hash_suffix symbol = elim (rsplit_once symbol (codes "::h")) [
  | none ↦ symbol
  | some (before, suffix) ↦
      if leb 12 (byte_len suffix) && all is_hexdigit suffix then before else symbol
]

unfoldable pub is_hash_like : Str → Bool
is_hash_like token =
    leb 6 (byte_len token) && leb (byte_len token) 24 && all is_alnum token && any is_digit token

-- The text before a pattern, or the whole text.
abbrev cut : Str → Str → Str
cut p s = elim (split_once s p) [ none ↦ s | some (before, behind) ↦ before ]

-- `dir` and `file` of a path, with the slash in `dir`.
unfoldable pub split_dir : Str → Str × Str
unfolding rsplit_once
split_dir path = elim (rsplit_once path (codes "/")) [
  | none ↦ ([], path)
  | some (before, file) ↦ (before ++ codes "/", file)
]

-- The stem without a hash behind its last separator, where it ends in one.
unfoldable pub strip_segment : Str → Str → Option Str
unfolding rsplit_once is_hash_like
strip_segment separator stem = elim (rsplit_once stem separator) [
  | none ↦ none
  | some (name, candidate) ↦ if is_hash_like candidate then some name else none
]

unfoldable pub strip_bundle_hash : Str → Str
unfolding split_dir strip_segment
strip_bundle_hash path =
    let (dir, file) = split_dir path in
    elim (rsplit_once file (codes ".")) [
      | none ↦ path
      | some (stem, extension) ↦ elim (strip_segment (codes ".") stem) [
        | some name ↦ dir ++ (name ++ (codes "." ++ extension))
        | none ↦ elim (strip_segment (codes "-") stem) [
          | some name ↦ dir ++ (name ++ (codes "." ++ extension))
          | none ↦ path
        ]
      ]
    ]

abbrev strip_prefix : Str → Str → Str
strip_prefix s scheme = if starts_with s scheme then skip scheme s else s

unfoldable pub normalize_type : Str → Str
normalize_type ty = trim ty

unfoldable pub normalize_function : Str → Str
unfolding strip_rust_hash_suffix
normalize_function function = trim (cut (codes "+0x") (strip_rust_hash_suffix (trim function)))

unfoldable pub normalize_module : Str → Str
unfolding strip_rust_hash_suffix
normalize_module name = strip_rust_hash_suffix (trim name)

unfoldable pub normalize_path : Str → Str
unfolding strip_bundle_hash
normalize_path path =
    let p = cut (codes "#") (cut (codes "?") (trim path)) in
    strip_bundle_hash (
      strip_prefix
        (strip_prefix (strip_prefix p (codes "webpack://")) (codes "webpack-internal:///"))
        (codes "app://"))
