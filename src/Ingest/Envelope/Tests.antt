-- ===== src/Ingest/Envelope/Tests.antt =====
-- The parser with a JSON library of two values, and the theorems at an envelope of two items.
use soika.Base.{
  ◌<◌, ◌≡◌, refl, arith, Bool, true, false, Option, none, some, [], ◌∷◌, ◌++◌, length,
  if◌then◌else◌, inl, inr,
}
use soika.Base.Text.{Str, codes, str_eq}
use soika.Base.Result.{Result, ok, err}
use soika.Ingest.Envelope.{
  Json, EnvelopeError, Envelope, declared_length, read_payload, parse, truncated_item, empty,
  next_line, position, parse_items,
}
use soika.Ingest.Envelope.Total.{Bounded, parse-total}
use soika.Ingest.Envelope.Print.{Writes, IsLine, print, print_items, AllSized, parse-print}

-- The text `3` is an object with the length 3, the text `0` one with no fields.
abbrev read_flag : Str → Option Bool
read_flag s =
    if str_eq s (codes "3") then some true else if str_eq s (codes "0") then some false else none

abbrev flags : Json
flags = record {
  Value = Bool;
  from_slice = read_flag;
  get = λ v key. if v then some v else none;
  as_u64 = λ v. if v then some 3 else none;
  as_str = λ v. none;
}

abbrev write_flag : Bool → Str
write_flag true = codes "3"
write_flag false = codes "0"

flag_reads : (v : Bool) → read_flag (write_flag v) ≡ some v
unfolding str_eq
flag_reads true = refl
flag_reads false = refl

flag-IsLine : (v : Bool) → IsLine (write_flag v)
flag-IsLine true = refl
flag-IsLine false = refl

flag_solid : (v : Bool) → 0 < length (write_flag v)
flag_solid true = omega arith
flag_solid false = omega arith

flags-Writes : Writes flags write_flag
flags-Writes = record { reads = flag_reads; line = flag-IsLine; solid = flag_solid }

-- A payload with a newline inside needs its length.
abbrev two_items : Envelope flags
two_items = record {
  header = false;
  items =
      record { header = true; payload = 97 ∷ 10 ∷ 98 ∷ [] }
      ∷ record { header = false; payload = codes "abc" }
      ∷ [];
}

abbrev wire : Str
wire = codes "0" ++ (10 ∷ 51 ∷ 10 ∷ 97 ∷ 10 ∷ 98 ∷ 10 ∷ 48 ∷ 10 ∷ 97 ∷ 98 ∷ 99 ∷ 10 ∷ [])

two_items-wire : print flags write_flag two_items ≡ wire
unfolding print print_items
two_items-wire = refl

two_items-AllSized : AllSized flags write_flag two_items.items
unfolding declared_length
two_items-AllSized = (inl refl, (inr (refl, refl), tt))

parse-print_example : parse flags (print flags write_flag two_items) ≡ some (ok two_items)
parse-print_example =
    parse-print flags write_flag flags-Writes two_items two_items-AllSized
      (unfold print print_items in omega arith)

parse-total_example :
    (r : Result EnvelopeError (Envelope flags)) × (parse flags (codes "0") ≡ some r)
    × Bounded flags (codes "0") r
parse-total_example = parse-total flags (codes "0")

empty_envelope : parse flags [] ≡ some (err empty)
unfolding parse next_line
empty_envelope = refl

truncated_envelope : parse flags (48 ∷ 10 ∷ 51 ∷ 10 ∷ 97 ∷ []) ≡ some (err truncated_item)
unfolding parse next_line parse_items read_payload declared_length position str_eq
truncated_envelope = refl
