-- ===== src/Notifications/Template/Pieces.antt =====
-- src/domain/notifications.rs: templates written piece by piece, and what they render to.
use soika.Base.{
  ℕ, zero, suc, ◌≤◌, ◌<◌, ◌≡◌, refl, sym, ap, ◌∙◌, arith, Bool, true, false, ◌&&◌, not, none, some,
  List, [], ◌∷◌, ◌++◌, length, inl, inr, ◌⊎◌, all, all-append, ◌==◌, length-append,
}
use mathlib.Core.List.{append_assoc, append-nil}
use soika.Base.Text.{Str, codes, contains, starts_with, split_once, trim}
use soika.Base.Split.{split_once-append, contains-free}
use soika.Base.Dict.{Dict, lookup}
use soika.Base.Result.{ok}
use soika.Notifications.Template.{is_variable, next_placeholder, render_loop, render_template}
use soika.Notifications.Template.Verdict.{IsComplete}

-- Text as it is, or a placeholder with what stands between its braces.
pub data Piece : Type 0 where
  text : Str → Piece
  hole : Str → Piece

abbrev pub print : List Piece → Str
print [] = []
print (text s ∷ ps) = s ++ print ps
print (hole inner ∷ ps) = codes "{{" ++ (inner ++ (codes "}}" ++ print ps))

abbrev value_of : Dict Str → Str → Str
value_of vars name = elim (lookup name vars) [ none ↦ [] | some v ↦ v ]

-- Each placeholder replaced by its variable's value, and nothing else.
abbrev pub expand : Dict Str → List Piece → Str
expand vars [] = []
expand vars (text s ∷ ps) = s ++ expand vars ps
expand vars (hole inner ∷ ps) = value_of vars (trim inner) ++ expand vars ps

-- A text without the characters of the template language.
abbrev is_plain_char : ℕ → Bool
is_plain_char c = not (c == b'{') && not (c == b'}') && not (c == b'%') && not (c == b'#')

abbrev pub IsPlain : Str → Type 0
IsPlain s = all is_plain_char s ≡ true

abbrev pub AllPlain : List Piece → Type 0
AllPlain [] = Unit {0}
AllPlain (text s ∷ ps) = IsPlain s × AllPlain ps
AllPlain (hole inner ∷ ps) = IsPlain inner × (is_variable (trim inner) ≡ true) × AllPlain ps

free_open : (s : Str) → IsPlain s → all (λ c. not (c == b'{')) s ≡ true
free_open [] h = refl
free_open (c ∷ s) h = ground (arith, free_open s)

free_close : (s : Str) → IsPlain s → all (λ c. not (c == b'}')) s ≡ true
free_close [] h = refl
free_close (c ∷ s) h = ground (arith, free_close s)

-- No `{` is followed by the second character of a refused tag.
contains-plain :
    (s t : Str) (d : ℕ)
    → IsPlain s
    → contains t (b'{' ∷ d ∷ []) ≡ false
    → contains (s ++ t) (b'{' ∷ d ∷ []) ≡ false
unfolding contains starts_with
contains-plain [] t d h k = k
contains-plain (c ∷ s) t d h k = ground (arith, contains-plain s t d)

contains-hole :
    (inner r : Str) (d : ℕ)
    → IsPlain inner
    → (d ≡ b'%') ⊎ (d ≡ b'#')
    → contains r (b'{' ∷ d ∷ []) ≡ false
    → contains (codes "{{" ++ (inner ++ (codes "}}" ++ r))) (b'{' ∷ d ∷ []) ≡ false
unfolding contains starts_with
contains-hole [] r d h odd k = ground arith
contains-hole (c ∷ inner) r d h odd k = ground (arith, contains-plain inner (codes "}}" ++ r) d)

contains-print :
    (ps : List Piece) (d : ℕ)
    → AllPlain ps
    → (d ≡ b'%') ⊎ (d ≡ b'#')
    → contains (print ps) (b'{' ∷ d ∷ []) ≡ false
unfolding contains starts_with
contains-print [] d h odd = refl
contains-print (text s ∷ ps) d h odd =
    contains-plain s (print ps) d h.0 (contains-print ps d h.1 odd)
contains-print (hole inner ∷ ps) d h odd =
    contains-hole inner (print ps) d h.0 odd (contains-print ps d h.2 odd)

split-hole :
    (s inner r : Str)
    → IsPlain s
    → split_once (s ++ (codes "{{" ++ (inner ++ (codes "}}" ++ r)))) (codes "{{")
      ≡ some (s, inner ++ (codes "}}" ++ r))
unfolding split_once starts_with
split-hole s inner r h =
    split_once-append s (codes "{{" ++ (inner ++ (codes "}}" ++ r))) b'{' (codes "{")
      (free_open s h)
    ∙ ap (λ (before : Str). some (before, inner ++ (codes "}}" ++ r))) (append-nil s)

split-inner :
    (inner r : Str)
    → IsPlain inner
    → split_once (inner ++ (codes "}}" ++ r)) (codes "}}") ≡ some (inner, r)
unfolding split_once starts_with
split-inner inner r h =
    split_once-append inner (codes "}}" ++ r) b'}' (codes "}") (free_close inner h)
    ∙ ap (λ (before : Str). some (before, r)) (append-nil inner)

next_placeholder-hole :
    (s inner r : Str)
    → IsPlain s
    → IsPlain inner
    → is_variable (trim inner) ≡ true
    → next_placeholder (s ++ (codes "{{" ++ (inner ++ (codes "}}" ++ r))))
      ≡ ok (some (s, trim inner, r))
unfolding next_placeholder
next_placeholder-hole s inner r h k known = rw (
  next_placeholder,
  split-hole s inner r h,
  contains-free s b'}' (codes "}") (free_close s h),
  split-inner inner r k,
  known,
)

next_placeholder-none : (s : Str) → IsPlain s → next_placeholder s ≡ ok none
unfolding next_placeholder split_once starts_with
next_placeholder-none s h =
    let e : split_once s (codes "{{") ≡ none =
      sym (ap (λ t. split_once t (codes "{{")) (append-nil s))
      ∙ split_once-append s [] b'{' (codes "{") (free_open s h) in
    rw (e, next_placeholder, contains-free s b'}' (codes "}") (free_close s h))

holes : List Piece → ℕ
holes [] = 0
holes (text s ∷ ps) = holes ps
holes (hole inner ∷ ps) = suc (holes ps)

holes-le : (ps : List Piece) → holes ps ≤ length (print ps)
unfolding holes
holes-le [] = omega arith
holes-le (text s ∷ ps) = omega (arith, holes-le ps, length-append s (print ps))
holes-le (hole inner ∷ ps) = omega (
  arith,
  holes-le ps,
  length-append inner (codes "}}" ++ print ps),
  length-append (codes "}}") (print ps),
)

module _ (vars : Dict Str) (full : IsComplete vars) where
  loop-print :
      (ps : List Piece) (fuel : ℕ) (out s : Str)
      → IsPlain s
      → AllPlain ps
      → holes ps < fuel
      → render_loop fuel vars out (s ++ print ps) ≡ some (ok ((out ++ s) ++ expand vars ps))
  unfolding render_loop holes
  loop-print ps zero out s h all_plain enough = let no : ⊥ = omega arith in absurd no
  loop-print [] (suc fuel) out s h all_plain enough =
      ap (render_loop (suc fuel) vars out) (append-nil s)
      ∙ rw (next_placeholder-none s h, render_loop)
          (ap (λ (t : Str). some (ok t)) (sym (append-nil (out ++ s))))
  loop-print (text t ∷ ps) (suc fuel) out s h all_plain enough =
      let plain : IsPlain (s ++ t) = all-append is_plain_char s t ∙ rw (h, all_plain.0) in
      ap (render_loop (suc fuel) vars out) (sym (append_assoc s t (print ps)))
      ∙ loop-print ps (suc fuel) out (s ++ t) plain all_plain.1 enough
      ∙ ap (λ (t : Str). some (ok t)) (simp append_assoc)
  loop-print (hole inner ∷ ps) (suc fuel) out s h all_plain enough =
      let (v, f) = full (trim inner) all_plain.1 in
      let named : value_of vars (trim inner) ≡ v = rw (f, value_of) in
      let rest =
        loop-print ps fuel ((out ++ s) ++ v) [] refl all_plain.2 (omega arith)
        ∙ ap (λ (t : Str). some (ok t)) (shuffle (out ++ s) v (expand vars ps))
        ∙ ap (λ (u : Str). some (ok ((out ++ s) ++ (u ++ expand vars ps)))) (sym named) in
      rw (next_placeholder-hole s inner (print ps) h all_plain.0 all_plain.1, render_loop, f) rest
    where
      shuffle : (a v e : Str) → ((a ++ v) ++ []) ++ e ≡ a ++ (v ++ e)
      shuffle a v e = simp (append_assoc, append-nil)

  -- A template of plain text and known placeholders renders, with each placeholder replaced by its
  -- variable's value and the rest as it is; no value is read as a template again.
  pub render_template-print :
      (ps : List Piece) → AllPlain ps → render_template (print ps) vars ≡ some (ok (expand vars ps))
  unfolding render_template
  render_template-print ps h =
      rw (render_template, contains-print ps b'%' h (inl refl), contains-print ps b'#' h (inr refl))
        (loop-print ps (suc (length (print ps))) [] [] refl h (omega (arith, holes-le ps)))
