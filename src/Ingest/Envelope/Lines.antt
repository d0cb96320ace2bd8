-- ===== src/Ingest/Envelope/Lines.antt =====
-- How far `next_line` and `read_payload` of src/ingest/envelope.rs move the cursor.
use soika.Base.{
  ◌↔◌, ℕ, zero, suc, ◌+◌, ◌-◌, ◌≤◌, ◌<◌, ◌≡◌, arith, true, none, some, [], ◌∷◌, length, drop,
  length-take, length-drop, Option-cases, inl, inr,
}
use soika.Base.Text.{Str}
use soika.Base.Result.{ok, err}
use soika.Ingest.Envelope.{
  Json, position, newline, slice, next_line, declared_length, read_payload, newline_at, usize_mod,
  truncated_item,
}

position-lt : (c : ℕ) (s : Str) {i : ℕ} → position c s ≡ some i → i < length s
unfolding position
position-lt c [] h = cc
position-lt c (b ∷ s) h = elim (Option-cases (position c s)) [
  | inl e ↦ ground (arith, e)
  | inr (j, e) ↦ ground (arith, e, position-lt c s e)
]

length-slice : (bytes : Str) (a b : ℕ) → length (slice bytes a b) ≤ b - a
length-slice bytes a b = omega (arith, length-take (b - a) (drop a bytes))

pub next_line-advances :
    (bytes : Str) (c : ℕ) {line : Str} {c' : ℕ}
    → next_line bytes c ≡ some (line, c')
    → (c + length line ≤ c') × (c < c') × (c' ≤ length bytes)
unfolding next_line
next_line-advances bytes c {line} {c'} h = elim (Option-cases (position newline (drop c bytes))) [
  | inl e ↦ ground (arith, length-drop c bytes, e)
  | inr (rel, e) ↦ ground (
    arith,
    length-drop c bytes,
    length-slice bytes c (c + rel),
    position-lt newline (drop c bytes) e,
    e,
  )
]

pub next_line-end : (bytes : Str) (c : ℕ) → length bytes ≤ c → next_line bytes c ≡ none
unfolding next_line
next_line-end bytes c h = ground arith

newline_at-lt : (bytes : Str) (c : ℕ) → newline_at bytes c ≡ true → c < length bytes
newline_at-lt [] zero h = cc
newline_at-lt [] (suc c) h = cc
newline_at-lt (b ∷ bytes) zero h = omega arith
newline_at-lt (b ∷ bytes) (suc c) h = omega (arith, newline_at-lt bytes c h)

module _ (J : Json) where
  pub read_payload-advances :
      (bytes : Str) (c : ℕ) (header : J.Value) {payload : Str} {c' : ℕ}
      → c ≤ length bytes
      → read_payload J bytes c header ≡ ok (payload, c')
      → (c + length payload ≤ c') × (c' ≤ length bytes)
  unfolding read_payload
  read_payload-advances bytes c header {payload} {c'} inside h =
      elim (Option-cases (declared_length J header)) [
        | inr (len, e) ↦
            ground (arith, e, length-slice bytes c (c + len), newline_at-lt bytes (c + len))
        | inl e ↦ elim (Option-cases (next_line bytes c)) [
          | inl q ↦ ground (arith, e, q)
          | inr ((line, d), q) ↦ ground (arith, e, q, next_line-advances bytes c q)
        ]
      ]

  -- An item is refused as truncated just when its header declares a length that reaches past the
  -- end of the input; an item without a declared length is never refused.
  pub read_payload-truncated :
      (bytes : Str) (c : ℕ) (header : J.Value)
      → length bytes < usize_mod
      → (read_payload J bytes c header ≡ err truncated_item)
        ↔ ((n : ℕ) × (declared_length J header ≡ some n) × (length bytes < c + n))
  unfolding read_payload
  read_payload-truncated bytes c header fits = elim (Option-cases (declared_length J header)) [
    | inr (n, e) ↦ (λ h. (n, e, ground (arith, e)), λ (m, q, past). ground (arith, e, q))
    | inl e ↦ elim (Option-cases (next_line bytes c)) [
      | inl q ↦ (λ h. cc, λ (m, r, past). cc)
      | inr (line, q) ↦ (λ h. cc, λ (m, r, past). cc)
    ]
  ]
