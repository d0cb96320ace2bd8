-- ===== src/Base/Dict.antt =====
-- `HashMap` and `BTreeMap` with text keys, as association lists with one entry for a key.
use Prim.Native.Nat.{ℕ, ◌≤◌, ◌+◌}
use mathlib.Core.Path.{◌≡◌, refl, subst, ◌∙◌}
use mathlib.Core.Logic.{inl, inr}
use mathlib.Core.Bool.{Bool, true, false}
use mathlib.Core.List.{List, [], ◌∷◌}
use mathlib.Core.Option.{Option, none, some}
use native.Mathlib.Omega.{arith}
use soika.Base.Tests.{if◌then◌else◌, Bool-cases}
use soika.Base.Lists.{length}
use soika.Base.Text.{Str, str_eq, str_eq_iff}

abbrev pub Dict {ℓ} : Type ℓ → Type ℓ
Dict V = List (Str × V)

module _ {ℓ} {V : Type ℓ} where
  unfoldable pub lookup : Str → Dict V → Option V
  lookup k [] = none
  lookup k ((j, v) ∷ m) = if str_eq j k then some v else lookup k m

  unfoldable pub insert : Str → V → Dict V → Dict V
  insert k v [] = (k, v) ∷ []
  insert k v ((j, w) ∷ m) = if str_eq j k then (k, v) ∷ m else (j, w) ∷ insert k v m

  unfoldable pub remove : Str → Dict V → Dict V
  remove k [] = []
  remove k ((j, w) ∷ m) = let rest = remove k m in if str_eq j k then rest else (j, w) ∷ rest

  -- `retain` by a test on values.
  unfoldable pub retain : (V → Bool) → Dict V → Dict V
  retain p [] = []
  retain p ((j, w) ∷ m) = let rest = retain p m in if p w then (j, w) ∷ rest else rest

  unfoldable pub contains_key : Str → Dict V → Bool
  contains_key k [] = false
  contains_key k ((j, v) ∷ m) = if str_eq j k then true else contains_key k m

  pub lookup-insert :
      (k j : Str) (v : V) (m : Dict V)
      → lookup j (insert k v m) ≡ (if str_eq k j then some v else lookup j m)
  unfolding lookup insert
  lookup-insert k j v [] = refl
  lookup-insert k j v ((i, w) ∷ m) =
      ground (arith, str_eq_iff k j, str_eq_iff i k, str_eq_iff i j, lookup-insert k j v m)

  pub lookup-remove :
      (k j : Str) (m : Dict V) → lookup j (remove k m) ≡ (if str_eq k j then none else lookup j m)
  unfolding lookup remove
  lookup-remove k j [] = ground arith
  lookup-remove k j ((i, w) ∷ m) =
      ground (arith, str_eq_iff k j, str_eq_iff i k, str_eq_iff i j, lookup-remove k j m)

  pub contains_key-lookup :
      (k : Str) (m : Dict V)
      → contains_key k m ≡ (elim (lookup k m) [ none ↦ false | some _ ↦ true ])
  unfolding lookup contains_key
  contains_key-lookup k [] = refl
  contains_key-lookup k ((i, w) ∷ m) = ground (arith, contains_key-lookup k m)

  pub length-insert :
      (k : Str) (v : V) (m : Dict V)
      → length (insert k v m) ≡ (if contains_key k m then length m else length m + 1)
  unfolding insert contains_key
  length-insert k v [] = omega arith
  length-insert k v ((i, w) ∷ m) = ground (arith, length-insert k v m)

  pub length-retain-le : (p : V → Bool) (m : Dict V) → length (retain p m) ≤ length m
  unfolding retain
  length-retain-le p [] = omega arith
  length-retain-le p ((i, w) ∷ m) = ground (arith, length-retain-le p m)

  pub contains_key-insert :
      (k j : Str) (v : V) (m : Dict V)
      → contains_key j (insert k v m) ≡ (if str_eq k j then true else contains_key j m)
  unfolding contains_key insert
  contains_key-insert k j v [] = refl
  contains_key-insert k j v ((i, w) ∷ m) =
      ground (arith, str_eq_iff k j, str_eq_iff i k, str_eq_iff i j, contains_key-insert k j v m)

  -- An entry that passes the test stays.
  pub lookup-retain_kept :
      (p : V → Bool) (k : Str) (m : Dict V) (v : V)
      → lookup k m ≡ some v
      → p v ≡ true
      → lookup k (retain p m) ≡ some v
  unfolding lookup retain
  lookup-retain_kept p k [] v e h = e
  lookup-retain_kept p k ((i, w) ∷ m) v e h = ground (arith, lookup-retain_kept p k m v)

  -- Whether a key is there, as a number.
  unfoldable pub has : Str → Dict V → ℕ
  has k m = if contains_key k m then 1 else 0

  -- What drops the entry of `k` makes the map smaller.
  pub length-retain-has :
      (p : V → Bool) (k : Str) (m : Dict V)
      → length (retain p m) + has k m ≤ length m + has k (retain p m)
  unfolding retain has contains_key
  length-retain-has p k [] = omega arith
  length-retain-has p k ((i, w) ∷ m) = ground (arith, length-retain-has p k m, length-retain-le p m)

  pub length-remove-le : (k : Str) (m : Dict V) → length (remove k m) ≤ length m
  unfolding remove
  length-remove-le k [] = omega arith
  length-remove-le k ((i, w) ∷ m) = ground (arith, length-remove-le k m)

  pub length-remove-has :
      (j k : Str) (m : Dict V) → length (remove j m) + has k m ≤ length m + has k (remove j m)
  unfolding remove has contains_key
  length-remove-has j k [] = omega arith
  length-remove-has j k ((i, w) ∷ m) = ground (arith, length-remove-has j k m, length-remove-le j m)

  pub contains_key-lookup-some :
      (k : Str) (m : Dict V) (v : V) → lookup k m ≡ some v → contains_key k m ≡ true
  contains_key-lookup-some k m v e = contains_key-lookup k m ∙ rw e

-- What holds of every value stored under one key.
module _ {ℓ κ} {V : Type ℓ} where
  abbrev pub AllAt : Str → (V → Type κ) → Dict V → Type κ
  AllAt k P [] = Unit
  AllAt k P ((j, v) ∷ m) = (str_eq j k ≡ true → P v) × AllAt k P m

  pub AllAt-map :
      (k : Str) (P Q : V → Type κ) (m : Dict V) → ((v : V) → P v → Q v) → AllAt k P m → AllAt k Q m
  AllAt-map k P Q [] f a = tt
  AllAt-map k P Q ((j, v) ∷ m) f a = (λ e. f v (a.0 e), AllAt-map k P Q m f a.1)

  pub AllAt-lookup :
      (k : Str) (P : V → Type κ) (m : Dict V) (v : V) → AllAt k P m → lookup k m ≡ some v → P v
  unfolding lookup
  AllAt-lookup k P [] v a e = cc
  AllAt-lookup k P ((j, w) ∷ m) v a e = elim (Bool-cases (str_eq j k)) [
    | inl same ↦ let stored : w ≡ v = ground arith in subst P stored (a.0 same)
    | inr other ↦ AllAt-lookup k P m v a.1 (ground arith)
  ]

  pub AllAt-lookup-none : (k : Str) (P : V → Type κ) (m : Dict V) → lookup k m ≡ none → AllAt k P m
  unfolding lookup
  AllAt-lookup-none k P [] e = tt
  AllAt-lookup-none k P ((j, w) ∷ m) e = elim (Bool-cases (str_eq j k)) [
    | inl same ↦ absurd (ground arith)
    | inr other ↦ (λ same. cc (same, other), AllAt-lookup-none k P m (ground arith))
  ]

  pub AllAt-insert :
      (j k : Str) (P : V → Type κ) (w : V) (m : Dict V)
      → (str_eq j k ≡ true → P w)
      → AllAt k P m
      → AllAt k P (insert j w m)
  unfolding insert
  AllAt-insert j k P w [] p a = (p, tt)
  AllAt-insert j k P w ((i, v) ∷ m) p a = elim (Bool-cases (str_eq i j)) [
    | inl same ↦ rw same (p, a.1)
    | inr other ↦ rw other (a.0, AllAt-insert j k P w m p a.1)
  ]

  pub AllAt-retain :
      (p : V → Bool) (k : Str) (P : V → Type κ) (m : Dict V) → AllAt k P m → AllAt k P (retain p m)
  unfolding retain
  AllAt-retain p k P [] a = tt
  AllAt-retain p k P ((i, v) ∷ m) a = elim (Bool-cases (p v)) [
    | inl keep ↦ rw keep (a.0, AllAt-retain p k P m a.1)
    | inr drop ↦ rw drop (AllAt-retain p k P m a.1)
  ]

  pub AllAt-remove :
      (j k : Str) (P : V → Type κ) (m : Dict V) → AllAt k P m → AllAt k P (remove j m)
  unfolding remove
  AllAt-remove j k P [] a = tt
  AllAt-remove j k P ((i, v) ∷ m) a = elim (Bool-cases (str_eq i j)) [
    | inl same ↦ rw same (AllAt-remove j k P m a.1)
    | inr other ↦ rw other (a.0, AllAt-remove j k P m a.1)
  ]
