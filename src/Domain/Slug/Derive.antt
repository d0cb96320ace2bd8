-- ===== src/Domain/Slug/Derive.antt =====
-- src/domain/project.rs: what `slugify` gives.
use mathlib.Core.List.{
  reverse, reverse-cons, reverse-append, reverse-reverse, append_assoc, append-nil,
}
use soika.Base.{
  ℕ, zero, suc, ◌+◌, ◌≤◌, ◌<◌, ◌≡◌, refl, sym, ap, ◌∙◌, arith, Bool, true, false, not, ◌&&◌, ◌||◌,
  [], ◌∷◌, ◌++◌, ◌==◌, length, length-append, length-take, take, all, is_empty, if◌then◌else◌,
  Bool-cases, &&_true, subst, inl, inr, leb,
}
use soika.Base.Text.{Str, codes, is_alnum, is_lower, is_digit, to_lower, trim_start_by, trim_by}
use soika.Domain.Slug.{slug_max_len, validate_slug, ok, push_char, slug_loop, slugify}
use soika.Domain.Slug.Shape.{reads, reads-append, after, after-append, validate_slug_iff}

-- The loop's invariant: a slug so far, whose last character is a dash just when `prev_dash` says.
record IsDraft (slug : Str) (prev : Bool) : Type 0 where
  shape : reads true slug ≡ true
  end : after true slug ≡ is_empty slug || prev
  size : length slug ≤ slug_max_len

is_empty-snoc : (s : Str) (c : ℕ) → is_empty (s ++ (c ∷ [])) ≡ false
is_empty-snoc [] c = refl
is_empty-snoc (b ∷ s) c = refl

-- One more character, a letter or digit, or a dash where one may stand.
snoc-IsDraft :
    (slug : Str) (prev : Bool) (c : ℕ)
    → length slug < slug_max_len
    → IsDraft slug prev
    → reads (is_empty slug || prev) (c ∷ []) ≡ true
    → IsDraft (slug ++ (c ∷ [])) (c == b'-')
unfolding reads after
snoc-IsDraft slug prev c room d h = record {
  shape = ground (arith, reads-append true slug (c ∷ []), d.end, d.shape);
  end = ground (arith, after-append true slug (c ∷ []), is_empty-snoc slug c);
  size = omega (arith, length-append slug (c ∷ []));
}

push_char-IsDraft :
    (slug : Str) (prev : Bool) (ch : ℕ)
    → length slug < slug_max_len
    → IsDraft slug prev
    → IsDraft (push_char slug prev ch).0 (push_char slug prev ch).1
unfolding push_char reads
push_char-IsDraft slug prev ch room d = elim (Bool-cases (is_alnum ch)) [
  | inl word ↦
      let not_dash : (to_lower ch == b'-') ≡ false = ground arith in
      rw word (
        subst (IsDraft (slug ++ (to_lower ch ∷ []))) not_dash
          (snoc-IsDraft slug prev (to_lower ch) room d (ground arith)))
  | inr other ↦ elim (Bool-cases (not prev && not (is_empty slug))) [
    | inl here ↦ rw (other, here) (snoc-IsDraft slug prev b'-' room d (ground arith))
    | inr skip ↦ rw (other, skip) d
  ]
]

slug_loop-IsDraft :
    (chars slug : Str) (prev : Bool)
    → IsDraft slug prev
    → (p : Bool) × IsDraft (slug_loop slug prev chars) p
unfolding slug_loop
slug_loop-IsDraft [] slug prev d = (prev, d)
slug_loop-IsDraft (ch ∷ chars) slug prev d = elim (Bool-cases (leb slug_max_len (length slug))) [
  | inl full ↦ rw full (prev, d)
  | inr room ↦ rw room (
      slug_loop-IsDraft chars (push_char slug prev ch).0 (push_char slug prev ch).1
        (push_char-IsDraft slug prev ch (ground arith) d))
]

-- Trimming at the start drops a prefix, and leaves no match in front.
trim_start_parts : (p : ℕ → Bool) (s : Str) → (pre : Str) × (s ≡ pre ++ trim_start_by p s)
unfolding trim_start_by
trim_start_parts p [] = ([], refl)
trim_start_parts p (c ∷ s) = elim (Bool-cases (p c)) [
  | inl hit ↦ let (pre, e) = trim_start_parts p s in (c ∷ pre, rw hit (ap (◌∷◌ c) e))
  | inr miss ↦ ([], rw miss)
]

trim_start_head :
    (p : ℕ → Bool) (s : Str) (c : ℕ) (t : Str) → trim_start_by p s ≡ c ∷ t → p c ≡ false
unfolding trim_start_by
trim_start_head p [] c t e = cc
trim_start_head p (b ∷ s) c t e = elim (Bool-cases (p b)) [
  | inl hit ↦ trim_start_head p s c t (ground arith)
  | inr miss ↦ let same : b ≡ c = ground arith in ap p (sym same) ∙ miss
]

-- Trimming at the end leaves a front part, whose last character is no match.
trim_end : Str → Str
trim_end s = reverse (trim_start_by (λ c. c == b'-') (reverse s))

trim_end_parts : (s : Str) → (post : Str) × (s ≡ trim_end s ++ post)
unfolding trim_end
trim_end_parts s =
    let (pre, e) = trim_start_parts (λ c. c == b'-') (reverse s) in
    (reverse pre, sym (reverse-reverse s) ∙ ap reverse e ∙ reverse-append pre _)

after-trim_end : (s : Str) → after true (trim_end s) ≡ is_empty (trim_end s)
unfolding trim_end after
after-trim_end s = go (trim_start_by (λ c. c == b'-') (reverse s)) refl
  where
    go :
        (y : Str)
        → trim_start_by (λ c. c == b'-') (reverse s) ≡ y
        → after true (reverse y) ≡ is_empty (reverse y)
    go [] e = refl
    go (c ∷ y) e = rw (reverse-cons c y) (
        after-append true (reverse y) (c ∷ [])
        ∙ trim_start_head (λ b. b == b'-') (reverse s) c y e
        ∙ sym (is_empty-snoc (reverse y) c))

trim_end-reads : (s : Str) → reads true s ≡ true → reads true (trim_end s) ≡ true
trim_end-reads s h =
    let (post, e) = trim_end_parts s in
    (&&_true _ _ (sym (reads-append true (trim_end s) post) ∙ ap (reads true) (sym e) ∙ h)).0

length-trim_end-le : (s : Str) → length (trim_end s) ≤ length s
length-trim_end-le s =
    let (post, e) = trim_end_parts s in omega (arith, length-append (trim_end s) post, ap length e)

-- A draft has no dash in front, so that its trimmed form is what the end's trimming leaves.
trim_draft : (s : Str) → reads true s ≡ true → trim_by (λ c. c == b'-') s ≡ trim_end s
unfolding trim_by trim_end reads
trim_draft [] h = refl
trim_draft (c ∷ s) h = ap (λ t. reverse (trim_start_by (λ c. c == b'-') (reverse t))) (front c s h)
  where
    front :
        (c : ℕ) (s : Str)
        → reads true (c ∷ s) ≡ true
        → trim_start_by (λ b. b == b'-') (c ∷ s) ≡ c ∷ s
    front c s h = ground arith

abbrev pub is_word : ℕ → Bool
is_word c = is_lower c || is_digit c

words-reads : (d : Bool) (s : Str) → all is_word s ≡ true → reads d s ≡ true
unfolding reads
words-reads d [] h = refl
words-reads d (c ∷ s) h = ground (arith, words-reads false s)

words-after : (d : Bool) (c : ℕ) (s : Str) → all is_word (c ∷ s) ≡ true → after d (c ∷ s) ≡ false
unfolding after
words-after d c [] h = ground arith
words-after d c (b ∷ s) h = words-after (c == b'-') b s (&&_true _ _ h).1

all-take : (n : ℕ) (s : Str) → all is_word s ≡ true → all is_word (take n s) ≡ true
all-take zero s h = refl
all-take (suc n) [] h = refl
all-take (suc n) (c ∷ s) h = ground (arith, all-take n s)

fallback_valid :
    (id : Str)
    → 8 ≤ length id
    → all is_word id ≡ true
    → validate_slug (codes "project-" ++ take 8 id) ≡ ok
unfolding reads after
fallback_valid [] long h = absurd (omega arith)
fallback_valid (c ∷ id) long h =
    let word = all-take 8 (c ∷ id) h in
    (validate_slug_iff (codes "project-" ++ take 8 (c ∷ id))).1 (
      omega arith,
      omega (arith, length-append (codes "project-") (take 8 (c ∷ id)), length-take 8 (c ∷ id)),
      words-reads true (take 8 (c ∷ id)) word,
      words-after true c (take 7 id) word,
    )

-- Whatever text a slug is derived from, the result passes the check of slugs, if the random id is
-- written with at least eight lowercase letters and digits.
pub slugify_valid :
    (id input : Str) → 8 ≤ length id → all is_word id ≡ true → validate_slug (slugify id input) ≡ ok
unfolding slugify reads after
slugify_valid id input long h =
    let (p, d) =
      slug_loop-IsDraft input [] false (record { shape = refl; end = refl; size = omega arith }) in
    let draft = slug_loop [] false input in
    let trimmed = trim_draft draft d.shape in
    rw trimmed (elim (Bool-cases (is_empty (trim_end draft))) [
      | inl nothing ↦ rw nothing (fallback_valid id long h)
      | inr some_left ↦ rw some_left (
          (validate_slug_iff (trim_end draft)).1 (
            positive (trim_end draft) some_left,
            omega (arith, length-trim_end-le draft, d.size),
            trim_end-reads draft d.shape,
            after-trim_end draft ∙ some_left,
          ))
    ])
  where
    positive : (s : Str) → is_empty s ≡ false → 0 < length s
    positive [] e = cc
    positive (c ∷ s) e = omega arith

slug_loop_self :
    (s acc : Str) (prev : Bool)
    → length acc + length s ≤ slug_max_len
    → reads (is_empty acc || prev) s ≡ true
    → slug_loop acc prev s ≡ acc ++ s
unfolding slug_loop reads
slug_loop_self [] acc prev fits h = sym (append-nil acc)
slug_loop_self (c ∷ s) acc prev fits h = elim (Bool-cases (c == b'-')) [
  | inl dash ↦ ground (
    arith,
    slug_loop_self s (acc ++ (b'-' ∷ [])) true (omega (arith, length-append acc (b'-' ∷ [])))
        (ground (arith, is_empty-snoc acc b'-')),
    append_assoc acc (b'-' ∷ []) s,
  )
  | inr word ↦ ground (
    arith,
    slug_loop_self s (acc ++ (c ∷ [])) false (omega (arith, length-append acc (c ∷ [])))
        (ground (arith, is_empty-snoc acc c)),
    append_assoc acc (c ∷ []) s,
  )
]

-- Read from its end: the state behind a text is that of its last character.
after-reverse : (c : ℕ) (y : Str) → after true (reverse (c ∷ y)) ≡ (c == b'-')
unfolding after
after-reverse c y = ap (after true) (reverse-cons c y) ∙ after-append true (reverse y) (c ∷ [])

trim_start_keeps : (y : Str) → after true (reverse y) ≡ false → trim_start_by (λ c. c == b'-') y ≡ y
unfolding trim_start_by after
trim_start_keeps [] h = refl
trim_start_keeps (c ∷ y) h = ground (arith, after-reverse c y)

trim_end_keeps : (s : Str) → after true s ≡ false → trim_end s ≡ s
unfolding trim_end
trim_end_keeps s h =
    ap reverse (trim_start_keeps (reverse s) (ap (after true) (reverse-reverse s) ∙ h))
    ∙ reverse-reverse s

-- A text that already is a slug is its own slug.
pub slugify_self : (id s : Str) → validate_slug s ≡ ok → slugify id s ≡ s
unfolding slugify
slugify_self id s h =
    let (some_left, fits, shape, end) = (validate_slug_iff s).0 h in
    let looped = slug_loop_self s [] false (omega arith) shape in
    rw looped (rw (trim_draft s shape ∙ trim_end_keeps s end) (chosen s some_left))
  where
    chosen :
        (s : Str) → 0 < length s → (if is_empty s then codes "project-" ++ take 8 id else s) ≡ s
    chosen [] p = absurd (omega arith)
    chosen (c ∷ s) p = refl
