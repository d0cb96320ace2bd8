-- ===== src/Ingest/Envelope/Total.antt =====
-- src/ingest/envelope.rs: what `parse` comes to on any input, and the size of the payloads it
-- hands out.
use soika.Base.{
  ℕ, zero, suc, ◌+◌, ◌-◌, ◌≤◌, ◌<◌, ◌≡◌, arith, some, List, [], ◌∷◌, ◌++◌, length, Option-cases,
  inl, inr,
}
use soika.Base.Text.{Str}
use soika.Base.Result.{Result, ok, err, Result-cases}
use soika.Ingest.Envelope.{
  Json, EnvelopeError, EnvelopeItem, Envelope, next_line, read_payload, parse_items, parse, empty,
  header_json, item_header_json,
}
use soika.Ingest.Envelope.Lines.{next_line-advances, read_payload-advances}

module _ (J : Json) where
  -- The bytes of the payloads, and one for each item.
  unfoldable pub weight : List (EnvelopeItem J) → ℕ
  weight [] = 0
  weight (i ∷ items) = length i.payload + 1 + weight items

  weight-snoc :
      (items : List (EnvelopeItem J)) (i : EnvelopeItem J)
      → weight (items ++ (i ∷ [])) ≡ weight items + length i.payload + 1
  unfolding weight
  weight-snoc [] i = omega arith
  weight-snoc (j ∷ items) i = omega (arith, weight-snoc items i)

  -- An outcome of the loop whose items weigh at most `n`.
  abbrev pub Within : ℕ → Result EnvelopeError (List (EnvelopeItem J)) → Type 0
  Within n (ok items) = weight items ≤ n
  Within n (err e) = Unit {0}

  parse_items-Within :
      (fuel : ℕ) (bytes : Str) (c : ℕ) (items : List (EnvelopeItem J))
      → c ≤ length bytes
      → length bytes < c + fuel
      → (n : ℕ) → weight items + (length bytes - c) ≤ n
      → (r : Result EnvelopeError (List (EnvelopeItem J))) × (parse_items J fuel bytes c items
          ≡ some r)
        × Within n r
  unfolding parse_items
  parse_items-Within zero bytes c items start enough n small = let no : ⊥ = omega arith in absurd no
  parse_items-Within (suc fuel) bytes c items start enough n small =
      elim (Option-cases (next_line bytes c)) [
        | inl e ↦ (ok items, rw (e, parse_items), omega arith)
        | inr (([], c'), e) ↦
            let (far, past, inside) = next_line-advances bytes c e in
            let (r, q, w) =
              parse_items-Within fuel bytes c' items inside (omega arith) n (omega arith) in
            (r, rw (e, parse_items, q), w)
        | inr ((b ∷ line, c'), e) ↦
            let (far, past, inside) = next_line-advances bytes c e in
            elim (Option-cases (J.from_slice (b ∷ line))) [
              | inl bad ↦ (err item_header_json, rw (e, parse_items, bad), tt)
              | inr (header, good) ↦ elim (Result-cases (read_payload J bytes c' header)) [
                | inl (x, fail) ↦ (err x, rw (e, parse_items, good, fail), tt)
                | inr ((payload, c''), read) ↦
                    let (long, within) = read_payload-advances J bytes c' header inside read in
                    let item : EnvelopeItem J = record { header = header; payload = payload } in
                    let (r, q, w) =
                      parse_items-Within fuel bytes c'' (items ++ (item ∷ [])) within (omega arith)
                        n (omega (arith, weight-snoc items item)) in
                    (r, rw (e, parse_items, good, read, q), w)
              ]
            ]
      ]

  -- What parsing may come to.
  abbrev pub Bounded : Str → Result EnvelopeError (Envelope J) → Type 0
  Bounded bytes (ok env) = weight env.items ≤ length bytes
  Bounded bytes (err e) = Unit {0}

  finish :
      (bytes : Str) (b : ℕ) (line : Str) (c : ℕ) (header : J.Value)
      (r : Result EnvelopeError (List (EnvelopeItem J)))
      → next_line bytes 0 ≡ some (b ∷ line, c)
      → J.from_slice (b ∷ line) ≡ some header
      → parse_items J (suc (length bytes)) bytes c [] ≡ some r
      → Within (length bytes) r
      → (r : Result EnvelopeError (Envelope J)) × (parse J bytes ≡ some r) × Bounded bytes r
  unfolding parse
  finish bytes b line c header (ok items) e good q w =
      (ok (record { header = header; items = items }), rw (e, parse, good, q), w)
  finish bytes b line c header (err x) e good q w = (err x, rw (e, parse, good, q), tt)

  -- The parser ends on every input, with an envelope or an error, and the payloads of an envelope,
  -- with one byte more for each, are together no longer than the input.
  pub parse-total :
      (bytes : Str)
      → (r : Result EnvelopeError (Envelope J)) × (parse J bytes ≡ some r) × Bounded bytes r
  unfolding parse
  parse-total bytes = elim (Option-cases (next_line bytes 0)) [
    | inl e ↦ (err empty, rw (e, parse), tt)
    | inr (([], c), e) ↦ (err empty, rw (e, parse), tt)
    | inr ((b ∷ line, c), e) ↦
        let (far, past, inside) = next_line-advances bytes 0 e in
        elim (Option-cases (J.from_slice (b ∷ line))) [
          | inl bad ↦ (err header_json, rw (e, parse, bad), tt)
          | inr (header, good) ↦
              let (r, q, w) =
                parse_items-Within (suc (length bytes)) bytes c [] inside (omega arith)
                  (length bytes) (unfold weight in omega arith) in
              finish bytes b line c header r e good q w
        ]
  ]
