-- ===== src/Ingest/Envelope/Print.antt =====
-- src/ingest/envelope.rs: envelopes as an SDK writes them, and the parser at them.
use soika.Base.{
  ℕ, zero, suc, ◌+◌, ◌-◌, ◌≤◌, ◌<◌, ◌≡◌, refl, sym, ap, ◌∙◌, arith, true, false, none, some, List,
  [], ◌∷◌, ◌++◌, ltb, leb, ◌==◌, length, take, drop, all, not, inl, inr, ◌⊎◌, length-append,
  length-drop, lt→ltb,
}
use mathlib.Core.List.{append_assoc, append-nil}
use soika.Base.Text.{Str}
use soika.Base.Result.{ok}
use soika.Ingest.Envelope.{
  Json, EnvelopeItem, Envelope, position, newline, slice, next_line, declared_length, read_payload,
  newline_at, parse_items, parse, usize_mod,
}
use soika.Ingest.Envelope.Lines.{next_line-end}

module _ {ℓ} {A : Type ℓ} where
  drop-length-append : (s t : List A) → drop (length s) (s ++ t) ≡ t
  drop-length-append [] t = refl
  drop-length-append (a ∷ s) t = drop-length-append s t

  take-length-append : (s t : List A) → take (length s) (s ++ t) ≡ s
  take-length-append [] [] = refl
  take-length-append [] (x ∷ t) = refl
  take-length-append (a ∷ s) t = ap (λ r. a ∷ r) (take-length-append s t)

  drop_nil : (n : ℕ) → drop {A = A} n [] ≡ []
  drop_nil zero = refl
  drop_nil (suc n) = refl

  drop_split : (n m k : ℕ) (s : List A) → k ≡ n + m → drop k s ≡ drop m (drop n s)
  drop_split zero m k s h = ap (λ j. drop j s) (omega arith)
  drop_split (suc n) m k [] h = drop_nil k ∙ sym (drop_nil m)
  drop_split (suc n) m zero (a ∷ s) h = let no : ⊥ = omega arith in absurd no
  drop_split (suc n) m (suc k) (a ∷ s) h = drop_split n m k s (omega arith)

  drop-add : (n m : ℕ) (s : List A) → drop (n + m) s ≡ drop m (drop n s)
  drop-add n m s = drop_split n m (n + m) s refl

  -- Behind a prefix of what the cursor stands at.
  drop-past : (c : ℕ) (bytes s t : List A) → drop c bytes ≡ s ++ t → drop (c + length s) bytes ≡ t
  drop-past c bytes s t h =
      drop-add c (length s) bytes ∙ ap (drop (length s)) h ∙ drop-length-append s t

-- A text of one line.
abbrev pub IsLine : Str → Type 0
IsLine s = all (λ b. not (b == newline)) s ≡ true

position-append : (s t : Str) → IsLine s → position newline (s ++ (newline ∷ t)) ≡ some (length s)
unfolding position
position-append [] t h = refl
position-append (b ∷ s) t h = ground (arith, position-append s t)

cursor-le :
    (c : ℕ) (bytes s t : Str)
    → drop c bytes ≡ s ++ (newline ∷ t)
    → c + length s + 1 + length t ≡ length bytes
cursor-le c bytes s t h =
    let eq : length (drop c bytes) ≡ length (s ++ (newline ∷ t)) = ap length h in
    omega (arith, length-drop c bytes, length-append s (newline ∷ t))

next_line-print :
    (bytes : Str) (c : ℕ) (line rest : Str)
    → IsLine line
    → drop c bytes ≡ line ++ (newline ∷ rest)
    → (next_line bytes c ≡ some (line, c + length line + 1))
      × (drop (c + length line + 1) bytes ≡ rest)
unfolding next_line
next_line-print bytes c line rest one h =
    let size = cursor-le c bytes line rest h in
    let more : leb (length bytes) c ≡ false = ground arith in
    let at : position newline (drop c bytes) ≡ some (length line) =
      ap (position newline) h ∙ position-append line rest one in
    let width : c + length line - c ≡ length line = omega arith in
    let cut : slice bytes c (c + length line) ≡ line =
      rw (width, h) (take-length-append line (newline ∷ rest)) in
    (
      rw (more, at) (ap (λ (l : Str). some (l, c + length line + 1)) cut),
      drop-add (c + length line) 1 bytes ∙ ap (drop 1) (drop-past c bytes line (newline ∷ rest) h),
    )

-- What the parser relies on: the JSON library reads back the text of a value that `write` gives,
-- and that text is one line and not blank.
pub record Writes (J : Json) (write : J.Value → Str) : Type 0 where
  pub reads : (v : J.Value) → J.from_slice (write v) ≡ some v
  pub line : (v : J.Value) → IsLine (write v)
  pub solid : (v : J.Value) → 0 < length (write v)

module _ (J : Json) (write : J.Value → Str) where
  -- An item as an SDK writes it, and the whole envelope.
  unfoldable pub print_items : List (EnvelopeItem J) → Str
  print_items [] = []
  print_items (i ∷ items) =
      write i.header ++ (newline ∷ (i.payload ++ (newline ∷ print_items items)))

  unfoldable pub print : Envelope J → Str
  unfolding print_items
  print env = write env.header ++ (newline ∷ print_items env.items)

  -- The header declares the payload's length, or declares none and the payload is one line.
  abbrev pub IsSized : EnvelopeItem J → Type 0
  IsSized i =
      (declared_length J i.header ≡ some (length i.payload))
      ⊎ ((declared_length J i.header ≡ none) × IsLine i.payload)

  abbrev pub AllSized : List (EnvelopeItem J) → Type 0
  AllSized [] = Unit {0}
  AllSized (i ∷ items) = IsSized i × AllSized items

  read_payload-print :
      (bytes : Str) (c : ℕ) (i : EnvelopeItem J) (rest : Str)
      → length bytes < usize_mod
      → IsSized i
      → drop c bytes ≡ i.payload ++ (newline ∷ rest)
      → (read_payload J bytes c i.header ≡ ok (i.payload, c + length i.payload + 1))
        × (drop (c + length i.payload + 1) bytes ≡ rest)
  unfolding read_payload
  read_payload-print bytes c i rest fits (inr (plain, one)) h =
      let (line, behind) = next_line-print bytes c i.payload rest one h in
      (rw (plain, read_payload, line), behind)
  read_payload-print bytes c i rest fits (inl sized) h =
      let size = cursor-le c bytes i.payload rest h in
      let width : c + length i.payload - c ≡ length i.payload = omega arith in
      let cut : slice bytes c (c + length i.payload) ≡ i.payload =
        rw (width, h) (take-length-append i.payload (newline ∷ rest)) in
      let behind = drop-past c bytes i.payload (newline ∷ rest) h in
      let at : newline_at bytes (c + length i.payload) ≡ true = rw (behind, newline_at) in
      let small : ltb (c + length i.payload) usize_mod ≡ true = lt→ltb _ _ (omega arith) in
      let inside : ltb (length bytes) (c + length i.payload) ≡ false = ground arith in
      (
        rw (sized, read_payload, small, inside, at)
            (ap (λ (p : Str). ok (p, c + length i.payload + 1)) cut),
        drop-add (c + length i.payload) 1 bytes ∙ ap (drop 1) behind,
      )

  length-print_items : (items : List (EnvelopeItem J)) → length items ≤ length (print_items items)
  unfolding print_items
  length-print_items [] = omega arith
  length-print_items (i ∷ items) = omega (
    arith,
    length-print_items items,
    length-append (write i.header) (newline ∷ (i.payload ++ (newline ∷ print_items items))),
    length-append i.payload (newline ∷ print_items items),
  )

  -- A line of a value's text, read at the cursor: it is not blank.
  header-print :
      Writes J write
      → (bytes : Str) (c : ℕ) (v : J.Value) (rest : Str)
      → drop c bytes ≡ write v ++ (newline ∷ rest)
      → (b : ℕ) × (line : Str) × (c' : ℕ) × (next_line bytes c ≡ some (b ∷ line, c'))
        × (J.from_slice (b ∷ line) ≡ some v)
        × (drop c' bytes ≡ rest)
  header-print w bytes c v rest h =
      let (line, behind) = next_line-print bytes c (write v) rest (w.line v) h in
      go (write v) refl line (w.reads v) (w.solid v) behind
    where
      go :
          (s : Str)
          → write v ≡ s
          → next_line bytes c ≡ some (write v, c + length (write v) + 1)
          → J.from_slice (write v) ≡ some v
          → 0 < length (write v)
          → drop (c + length (write v) + 1) bytes ≡ rest
          → (b : ℕ) × (line : Str) × (c' : ℕ) × (next_line bytes c ≡ some (b ∷ line, c'))
            × (J.from_slice (b ∷ line) ≡ some v)
            × (drop c' bytes ≡ rest)
      go [] e line reads solid behind =
          let z : length (write v) ≡ 0 = ap length e in let no : ⊥ = omega arith in absurd no
      go (b ∷ s) e line reads solid behind = (
        b,
        s,
        _,
        line ∙ ap (λ (l : Str). some (l, c + length (write v) + 1)) e,
        rw e at reads,
        behind,
      )

  parse_items-print :
      Writes J write
      → (items done : List (EnvelopeItem J)) (fuel : ℕ) (bytes : Str) (c : ℕ)
      → length bytes < usize_mod
      → AllSized items
      → length items < fuel
      → drop c bytes ≡ print_items items
      → parse_items J fuel bytes c done ≡ some (ok (done ++ items))
  unfolding parse_items print_items
  parse_items-print w items done zero bytes c fits sized enough h =
      let no : ⊥ = omega arith in absurd no
  parse_items-print w [] done (suc fuel) bytes c fits sized enough h =
      let none_left : length (drop c bytes) ≡ 0 = ap length h in
      rw (next_line-end bytes c (omega (arith, length-drop c bytes)), parse_items)
        (ap (λ l. some (ok l)) (sym (append-nil done)))
  parse_items-print w (i ∷ items) done (suc fuel) bytes c fits sized enough h =
      let (b, line, c', e, good, behind) = header-print w bytes c i.header _ h in
      let (read, rest) = read_payload-print bytes c' i (print_items items) fits sized.0 behind in
      rw (e, parse_items, good, read)
        (parse_items-print w items (done ++ (i ∷ [])) fuel bytes _ fits sized.1 (omega arith) rest
          ∙ ap (λ l. some (ok l)) (append_assoc done (i ∷ []) items))

  -- Round trip: an envelope written by an SDK is read back as it is, if each item declares its
  -- payload's length, or declares none and the payload has no newline, and the text is an array
  -- that memory holds.
  pub parse-print :
      Writes J write
      → (env : Envelope J) → AllSized env.items
      → length (print env) < usize_mod
      → parse J (print env) ≡ some (ok env)
  unfolding parse print
  parse-print w env sized fits =
      let bytes = write env.header ++ (newline ∷ print_items env.items) in
      let (b, line, c, e, good, behind) =
        header-print w bytes 0 env.header (print_items env.items) refl in
      let long = length-append (write env.header) (newline ∷ print_items env.items) in
      let all_read =
        parse_items-print w env.items [] (suc (length bytes)) bytes c fits sized
          (omega (arith, length-print_items env.items)) behind in
      rw (e, parse, good, all_read)
