-- ===== src/Issues/Tables.antt =====
-- Sums and counts over the rows of a table, before and after an update of one row.
use soika.Base.{
  ℕ, ◌+◌, ◌≤◌, ◌≡◌, refl, arith, Bool, true, false, none, some, List, [], ◌∷◌, ◌++◌, if◌then◌else◌,
  not, ◌&&◌, Bool-cases, inl, inr,
}
use soika.Issues.Types.{Issue}
use soika.Issues.Store.{find, update, count, has_id}

abbrev pub sum_by : (Issue → ℕ) → List Issue → ℕ
sum_by g [] = 0
sum_by g (i ∷ is) = g i + sum_by g is

pub sum_by-append :
    (g : Issue → ℕ) (xs ys : List Issue) → sum_by g (xs ++ ys) ≡ sum_by g xs + sum_by g ys
sum_by-append g [] ys = omega arith
sum_by-append g (x ∷ xs) ys = omega (arith, sum_by-append g xs ys)

module _ (p : Issue → Bool) where
  pub count-append : (xs ys : List Issue) → count p (xs ++ ys) ≡ count p xs + count p ys
  count-append [] ys = omega arith
  count-append (x ∷ xs) ys = omega (arith, count-append xs ys)

  pub find-none-count : (xs : List Issue) → find p xs ≡ none → count p xs ≡ 0
  find-none-count [] h = refl
  find-none-count (x ∷ xs) h = ground (arith, find-none-count xs)

  pub count_zero-find : (xs : List Issue) → count p xs ≡ 0 → find p xs ≡ none
  count_zero-find [] h = refl
  count_zero-find (x ∷ xs) h = ground (arith, count_zero-find xs)

  pub find-holds : (xs : List Issue) (c : Issue) → find p xs ≡ some c → p c ≡ true
  find-holds [] c h = cc
  find-holds (x ∷ xs) c h = ground (arith, find-holds xs c)

  pub find-count :
      (q : Issue → Bool) (xs : List Issue) (c : Issue)
      → find p xs ≡ some c
      → q c ≡ true
      → 1 ≤ count q xs
  find-count q [] c h e = cc
  find-count q (x ∷ xs) c h e = ground (arith, find-count q xs c)

  pub find-append :
      (xs ys : List Issue)
      → find p (xs ++ ys) ≡ (elim (find p xs) [ none ↦ find p ys | some c ↦ some c ])
  find-append [] ys = refl
  find-append (x ∷ xs) ys = ground (arith, find-append xs ys)

  -- An update that no row is picked for changes no sum.
  pub sum_by-update_none :
      (g : Issue → ℕ) (f : Issue → Issue) (xs : List Issue)
      → count p xs ≡ 0
      → sum_by g (update p f xs) ≡ sum_by g xs
  sum_by-update_none g f [] h = refl
  sum_by-update_none g f (x ∷ xs) h = ground (arith, sum_by-update_none g f xs)

  -- An update of the one row that is picked exchanges that row's share.
  pub sum_by-update :
      (g : Issue → ℕ) (f : Issue → Issue) (xs : List Issue) (c : Issue)
      → count p xs ≤ 1
      → find p xs ≡ some c
      → sum_by g (update p f xs) + g c ≡ sum_by g xs + g (f c)
  sum_by-update g f [] c u h = cc
  sum_by-update g f (x ∷ xs) c u h =
      ground (arith, sum_by-update g f xs c, sum_by-update_none g f xs)

  -- What an update leaves of the rows' other properties.
  pub count-update :
      (q : Issue → Bool) (f : Issue → Issue) (xs : List Issue)
      → ((i : Issue) → q (f i) ≡ q i)
      → count q (update p f xs) ≡ count q xs
  count-update q f [] h = refl
  count-update q f (x ∷ xs) h = ground (arith, count-update q f xs h, h x)

  pub find-update :
      (q : Issue → Bool) (f : Issue → Issue) (xs : List Issue) (c : Issue)
      → ((i : Issue) → q (f i) ≡ q i)
      → find q xs ≡ some c
      → find q (update p f xs) ≡ some (if p c then f c else c)
  find-update q f [] c h e = cc
  find-update q f (x ∷ xs) c h e = ground (arith, find-update q f xs c h, h x)

-- A row that some statement finds is the one with its id.
pub find-by_id :
    (q : Issue → Bool) (xs : List Issue) (c : Issue)
    → find q xs ≡ some c
    → count (has_id c.id) xs ≤ 1
    → find (has_id c.id) xs ≡ some c
find-by_id q [] c h u = cc
find-by_id q (x ∷ xs) c h u = ground (arith, find-by_id q xs c, find-count q (has_id c.id) xs c)

-- An update that keeps every row's share keeps the sum.
pub sum_by-update_same :
    (p : Issue → Bool) (g : Issue → ℕ) (f : Issue → Issue) (xs : List Issue)
    → ((i : Issue) → g (f i) ≡ g i)
    → sum_by g (update p f xs) ≡ sum_by g xs
sum_by-update_same p g f [] h = refl
sum_by-update_same p g f (x ∷ xs) h = ground (arith, sum_by-update_same p g f xs h, h x)

abbrev pub indicator : (Issue → Bool) → Issue → ℕ
indicator q i = if q i then 1 else 0

pub count-sum_by : (q : Issue → Bool) (xs : List Issue) → count q xs ≡ sum_by (indicator q) xs
count-sum_by q [] = refl
count-sum_by q (x ∷ xs) = omega (arith, count-sum_by q xs)

-- Of the one row that `p` picks, only its own tests count.
count-both_none :
    (p q : Issue → Bool) (xs : List Issue) → count p xs ≡ 0 → count (λ i. q i && p i) xs ≡ 0
count-both_none p q [] u = refl
count-both_none p q (x ∷ xs) u = ground (arith, count-both_none p q xs)

pub count-both :
    (p q : Issue → Bool) (xs : List Issue) (c : Issue)
    → count p xs ≤ 1
    → find p xs ≡ some c
    → q c ≡ false
    → count (λ i. q i && p i) xs ≡ 0
count-both p q [] c u e h = cc
count-both p q (x ∷ xs) c u e h = elim (Bool-cases (p x)) [
  | inl hit ↦ ground (arith, count-both_none p q xs)
  | inr miss ↦ ground (arith, count-both p q xs c)
]

pub count-split :
    (p q : Issue → Bool) (xs : List Issue)
    → count q xs ≡ count (λ i. q i && not (p i)) xs + count (λ i. q i && p i) xs
count-split p q [] = refl
count-split p q (x ∷ xs) = ground (arith, count-split p q xs)
