-- ===== src/Grouping/Fingerprint/Join.antt =====
-- src/grouping/fingerprint.rs: the parts of a custom fingerprint stay apart in the text that is
-- hashed.
use soika.Base.{
  ℕ, ◌≡◌, refl, ap, ◌∙◌, arith, Bool, true, false, not, List, [], ◌∷◌, ◌++◌, all, is_empty,
  if◌then◌else◌, ◌==◌, &&_true,
}
use soika.Base.Text.{Str}
use soika.Grouping.Fingerprint.{join, unit_separator}

-- The parts between the separators.
abbrev extend_first : ℕ → List Str → List Str
extend_first c [] = (c ∷ []) ∷ []
extend_first c (part ∷ parts) = (c ∷ part) ∷ parts

abbrev pub parts_of : Str → List Str
parts_of [] = [] ∷ []
parts_of (c ∷ s) = let rest = parts_of s in if c == 0x1f then [] ∷ rest else extend_first c rest

abbrev pub has_no_separator : Str → Bool
has_no_separator part = all (λ c. not (c == 0x1f)) part

pub parts_of-part : (part : Str) → has_no_separator part ≡ true → parts_of part ≡ part ∷ []
parts_of-part [] h = refl
parts_of-part (c ∷ part) h = ground (arith, parts_of-part part)

parts_of-append :
    (part s : Str)
    → has_no_separator part ≡ true
    → parts_of (part ++ (0x1f ∷ s)) ≡ part ∷ parts_of s
parts_of-append [] s h = refl
parts_of-append (c ∷ part) s h = ground (arith, parts_of-append part s)

pub parts_of-join :
    (parts : List Str)
    → all has_no_separator parts ≡ true
    → is_empty parts ≡ false
    → parts_of (join unit_separator parts) ≡ parts
unfolding join
parts_of-join [] h e = cc
parts_of-join (part ∷ []) h e = parts_of-part part (&&_true (has_no_separator part) true h).0
parts_of-join (part ∷ (more ∷ parts)) h e =
    let (here, there) = &&_true (has_no_separator part) (all has_no_separator (more ∷ parts)) h in
    parts_of-append part (join unit_separator (more ∷ parts)) here
    ∙ ap (λ rest. part ∷ rest) (parts_of-join (more ∷ parts) there refl)
