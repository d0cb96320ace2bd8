-- ===== src/Ingest/Envelope.antt =====
-- src/ingest/envelope.rs: the Sentry envelope, read from bytes with a cursor. The JSON library is
-- an interface.
pub mod Lines
pub mod Total
pub mod Print
mod Tests
use soika.Base.{
  ℕ, zero, suc, ◌+◌, ◌-◌, ◌^◌, ◌≡◌, ◌≢◌, Bool, true, false, Option, none, some, List, [], ◌∷◌, ◌++◌,
  ltb, leb, ◌==◌, if◌then◌else◌, length, take, drop, all, not,
}
use soika.Base.Text.{Str, codes}
use soika.Base.Result.{Result, ok, err, ok_or}

-- What the parser calls of `serde_json`: reading a value from bytes, a field of an object, and the
-- number or the text of a value.
pub record Json : Type 1 where
  pub Value : Type 0
  pub from_slice : Str → Option Value
  pub get : Value → Str → Option Value
  pub as_u64 : Value → Option ℕ
  pub as_str : Value → Option Str

pub data EnvelopeError : Type 0 where
  empty header_json item_header_json truncated_item item_payload_json : EnvelopeError

-- The length of an array fits a `usize` of 64 bits.
abbrev pub usize_mod : ℕ
usize_mod = 2 ^ 64

abbrev pub newline : ℕ
newline = 10

-- `iter().position`.
unfoldable pub position : ℕ → Str → Option ℕ
position c [] = none
position c (b ∷ s) =
    let rest = position c s in
    if b == c then some 0 else elim rest [ none ↦ none | some i ↦ some (suc i) ]

-- `&bytes[start..end]`.
abbrev pub slice : Str → ℕ → ℕ → Str
slice bytes start end = take (end - start) (drop start bytes)

-- The next line and the cursor behind it.
unfoldable pub next_line : Str → ℕ → Option (Str × ℕ)
unfolding position
next_line bytes cursor =
    if leb (length bytes) cursor then none else elim (position newline (drop cursor bytes)) [
      | some rel ↦ some (slice bytes cursor (cursor + rel), cursor + rel + 1)
      | none ↦ some (drop cursor bytes, length bytes)
    ]

abbrev pub checked_add : ℕ → ℕ → Option ℕ
checked_add a b = if ltb (a + b) usize_mod then some (a + b) else none

-- Whether the byte at the cursor is a newline.
abbrev pub newline_at : Str → ℕ → Bool
newline_at bytes cursor = elim (drop cursor bytes) [ [] ↦ false | b ∷ _ ↦ b == newline ]

module _ (J : Json) where
  pub record EnvelopeItem : Type 0 where
    pub header : J.Value
    pub payload : Str

  pub record Envelope : Type 0 where
    pub header : J.Value
    pub items : List EnvelopeItem

module _ (J : Json) where
  -- `usize::try_from` of a u64 always succeeds on 64 bits.
  unfoldable pub declared_length : J.Value → Option ℕ
  declared_length header = elim (J.get header (codes "length")) [
    | none ↦ none
    | some v ↦ J.as_u64 v
  ]

  unfoldable pub header_event_id : Envelope J → Option Str
  header_event_id env = elim (J.get env.header (codes "event_id")) [
    | none ↦ none
    | some v ↦ J.as_str v
  ]

  unfoldable pub item_type : EnvelopeItem J → Option Str
  item_type item = elim (J.get item.header (codes "type")) [ none ↦ none | some v ↦ J.as_str v ]

  unfoldable pub payload_json : EnvelopeItem J → Result EnvelopeError J.Value
  payload_json item = ok_or (J.from_slice item.payload) item_payload_json

  -- The payload and the cursor behind it.
  unfoldable pub read_payload : Str → ℕ → J.Value → Result EnvelopeError (Str × ℕ)
  unfolding declared_length next_line
  read_payload bytes cursor header = elim (declared_length header) [
    | some len ↦ elim (checked_add cursor len) [
      | none ↦ err truncated_item
      | some end ↦
          if ltb (length bytes) end
          then err truncated_item
          else ok (slice bytes cursor end, if newline_at bytes end then end + 1 else end)
    ]
    | none ↦ elim (next_line bytes cursor) [ none ↦ ok ([], cursor) | some line ↦ ok line ]
  ]

  -- The loop of `parse`, on fuel. Its condition `cursor < bytes.len()` fails just where `next_line`
  -- is none.
  unfoldable pub parse_items :
      ℕ → Str → ℕ → List (EnvelopeItem J) → Option (Result EnvelopeError (List (EnvelopeItem J)))
  unfolding next_line read_payload
  parse_items zero bytes cursor items = none
  parse_items (suc fuel) bytes cursor items = elim (next_line bytes cursor) [
    | none ↦ some (ok items)
    | some ([], cursor') ↦ parse_items fuel bytes cursor' items
    | some (b ∷ line, cursor') ↦ elim (J.from_slice (b ∷ line)) [
      | none ↦ some (err item_header_json)
      | some header ↦ elim (read_payload bytes cursor' header) [
        | err e ↦ some (err e)
        | ok (payload, cursor'') ↦
            let item : EnvelopeItem J = record { header = header; payload = payload } in
            parse_items fuel bytes cursor'' (items ++ (item ∷ []))
      ]
    ]
  ]

  unfoldable pub parse : Str → Option (Result EnvelopeError (Envelope J))
  unfolding next_line parse_items
  parse bytes = elim (next_line bytes 0) [
    | none ↦ some (err empty)
    | some ([], cursor) ↦ some (err empty)
    | some (b ∷ line, cursor) ↦ elim (J.from_slice (b ∷ line)) [
      | none ↦ some (err header_json)
      | some header ↦ elim (parse_items (suc (length bytes)) bytes cursor []) [
        | none ↦ none
        | some (err e) ↦ some (err e)
        | some (ok items) ↦ some (ok (record { header = header; items = items }))
      ]
    ]
  ]
