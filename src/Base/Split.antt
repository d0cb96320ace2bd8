-- ===== src/Base/Split.antt =====
-- Laws of `split_once` and `starts_with`.
use Prim.Native.Nat.{ℕ, ◌+◌}
use mathlib.Core.Path.{◌≡◌, refl, ap}
use mathlib.Core.Logic.{inl, inr}
use mathlib.Core.Bool.{true, false, not}
use mathlib.Core.Option.{Option, none, some}
use mathlib.Core.List.{[], ◌∷◌, ◌++◌}
use native.Mathlib.Omega.{arith}
use soika.Base.Tests.{◌==◌, Bool-cases, Option-cases}
use soika.Base.Lists.{all, length, length-append}
use soika.Base.Text.{Str, starts_with, contains, split_once, skip}

-- A text that starts with a pattern is the pattern and what stands behind it.
pub starts_with-skip : (s p : Str) → starts_with s p ≡ true → s ≡ p ++ skip p s
unfolding starts_with
starts_with-skip s [] h = refl
starts_with-skip [] (b ∷ p) h = cc
starts_with-skip (a ∷ s) (b ∷ p) h = ground (arith, starts_with-skip s p)

skip_nil : (p : Str) → skip p [] ≡ []
skip_nil [] = refl
skip_nil (b ∷ p) = refl

-- The text is what stands before, the pattern, and what stands behind.
pub split_once-parts :
    (s p : Str) {before behind : Str}
    → split_once s p ≡ some (before, behind)
    → s ≡ before ++ (p ++ behind)
unfolding split_once
split_once-parts [] p {before} {behind} h = elim (Bool-cases (starts_with [] p)) [
  | inl hit ↦ ground (arith, starts_with-skip [] p hit, skip_nil p, hit)
  | inr miss ↦ ground (arith, miss)
]
split_once-parts (c ∷ s) p {before} {behind} h = elim (Bool-cases (starts_with (c ∷ s) p)) [
  | inl hit ↦ ground (arith, starts_with-skip (c ∷ s) p hit, hit)
  | inr miss ↦ elim (Option-cases (split_once s p)) [
    | inl e ↦ ground (arith, miss, e)
    | inr ((a, b), e) ↦ ground (arith, miss, e, split_once-parts s p e)
  ]
]

pub length-split_once :
    (s p : Str) {before behind : Str}
    → split_once s p ≡ some (before, behind)
    → length s ≡ length before + length p + length behind
length-split_once s p {before} {behind} h =
    let whole : length s ≡ length (before ++ (p ++ behind)) = ap length (split_once-parts s p h) in
    omega (arith, whole, length-append before (p ++ behind), length-append p behind)

-- A text that its first character rules out as the start of a pattern is passed over.
abbrev pub prepend : Str → Option (Str × Str) → Option (Str × Str)
prepend s none = none
prepend s (some (before, behind)) = some (s ++ before, behind)

pub split_once-append :
    (s t : Str) (b : ℕ) (p : Str)
    → all (λ c. not (c == b)) s ≡ true
    → split_once (s ++ t) (b ∷ p) ≡ prepend s (split_once t (b ∷ p))
unfolding split_once starts_with
split_once-append [] t b p h = elim (Option-cases (split_once t (b ∷ p))) [
  | inl e ↦ rw e
  | inr ((x, y), e) ↦ rw e
]
split_once-append (c ∷ s) t b p h = elim (Option-cases (split_once t (b ∷ p))) [
  | inl e ↦ ground (arith, split_once-append s t b p, e)
  | inr ((x, y), e) ↦ ground (arith, split_once-append s t b p, e)
]

pub contains-free :
    (s : Str) (b : ℕ) (p : Str) → all (λ c. not (c == b)) s ≡ true → contains s (b ∷ p) ≡ false
unfolding contains starts_with
contains-free [] b p h = refl
contains-free (c ∷ s) b p h = ground (arith, contains-free s b p)
