-- ===== src/Grouping/Normalize/Digits.antt =====
-- src/grouping/normalize.rs: no digit is left in a message.
use soika.Base.{
  ℕ, zero, suc, ◌-◌, ◌≡◌, refl, arith, Bool, true, false, ◌||◌, ◌&&◌, not, [], ◌∷◌, ◌++◌, all, any,
  length, take, if◌then◌else◌, leb, &&_true,
}
use mathlib.Core.List.{reverse, reverse_aux}
use soika.Base.Text.{
  Str, codes, is_alnum, is_alpha, is_digit, is_whitespace, trim, trim_by, trim_start_by,
}
use soika.Grouping.Normalize.{
  is_uuid, collapse_digit_runs, normalize_token, take_while, Round, message_step, message_loop,
  normalize_message,
}

abbrev pub has_no_digit : Str → Bool
has_no_digit s = all (λ c. not (is_digit c)) s

all-append : (s t : Str) → has_no_digit (s ++ t) ≡ has_no_digit s && has_no_digit t
all-append [] t = refl
all-append (c ∷ s) t = ground (arith, all-append s t)

no_digit-reverse_aux :
    (s t : Str)
    → has_no_digit s ≡ true
    → has_no_digit t ≡ true
    → has_no_digit (reverse_aux s t) ≡ true
no_digit-reverse_aux [] t h g = g
no_digit-reverse_aux (c ∷ s) t h g =
    let (here, there) = &&_true (not (is_digit c)) (has_no_digit s) h in
    no_digit-reverse_aux s (c ∷ t) there (rw (here, g) refl)

no_digit-reverse : (s : Str) → has_no_digit s ≡ true → has_no_digit (reverse s) ≡ true
no_digit-reverse s h = no_digit-reverse_aux s [] h refl

trim_start_no_digit :
    (p : ℕ → Bool) (s : Str) → has_no_digit s ≡ true → has_no_digit (trim_start_by p s) ≡ true
unfolding trim_start_by
trim_start_no_digit p [] h = refl
trim_start_no_digit p (c ∷ s) h = ground (arith, trim_start_no_digit p s)

collapse_step :
    (digit prev : Bool) (c : ℕ) (rest : Str)
    → is_digit c ≡ digit
    → has_no_digit rest ≡ true
    → has_no_digit ((if digit then (if prev then [] else codes "<int>") else (c ∷ [])) ++ rest)
      ≡ true
collapse_step true true c rest e h = h
collapse_step true false c rest e h = h
collapse_step false prev c rest e h = rw (e, h) refl

collapse_no_digit : (prev : Bool) (s : Str) → has_no_digit (collapse_digit_runs prev s) ≡ true
unfolding collapse_digit_runs
collapse_no_digit prev [] = refl
collapse_no_digit prev (c ∷ s) =
    collapse_step (is_digit c) prev c (collapse_digit_runs (is_digit c) s) refl
      (collapse_no_digit (is_digit c) s)

token_step :
    (digit alpha long : Bool) (rest : Str)
    → has_no_digit rest ≡ true
    → has_no_digit (
        if digit && not alpha
        then codes "<int>"
        else if digit && alpha && long
        then codes "<id>"
        else rest)
      ≡ true
token_step true false long rest h = refl
token_step true true true rest h = refl
token_step true true false rest h = h
token_step false alpha long rest h = h

token_no_digit : (s : Str) → has_no_digit (normalize_token s) ≡ true
unfolding normalize_token
token_no_digit s =
    token_step (any is_digit s) (any is_alpha s) (leb 6 (length s)) (collapse_digit_runs false s)
      (collapse_no_digit false s)

abbrev round_of : Bool → Bool → Bool → Bool → Str → ℕ → ℕ → Round
round_of space uuid alnum prev token n c =
    if space
    then record { out = if prev then [] else codes " "; passed = 0; prev_space = true }
    else if uuid
    then record { out = codes "<uuid>"; passed = 35; prev_space = false }
    else if alnum
    then record { out = token; passed = n; prev_space = false }
    else record { out = c ∷ []; passed = 0; prev_space = false }

char_step :
    (space uuid alnum prev : Bool) (token : Str) (n c : ℕ)
    → has_no_digit token ≡ true
    → (alnum ≡ false → is_digit c ≡ false)
    → has_no_digit (round_of space uuid alnum prev token n c).out ≡ true
char_step true uuid alnum true token n c h g = refl
char_step true uuid alnum false token n c h g = refl
char_step false true alnum prev token n c h g = refl
char_step false false true prev token n c h g = h
char_step false false false prev token n c h g = rw (g refl) refl

or_false : (a b : Bool) → a || b ≡ false → b ≡ false
or_false a b h = ground arith

step_no_digit :
    (passed : ℕ) (prev : Bool) (s : Str) → has_no_digit (message_step passed prev s).out ≡ true
unfolding message_step
step_no_digit passed prev [] = refl
step_no_digit (suc passed) prev (c ∷ s) = refl
step_no_digit zero prev (c ∷ s) =
    let token = take_while is_alnum (c ∷ s) in
    char_step (is_whitespace c) (is_uuid (take 36 (c ∷ s))) (is_alnum c) prev
      (normalize_token token) (length token - 1) c (token_no_digit token)
      (λ e. or_false (is_alpha c) (is_digit c) e)

loop_no_digit :
    (passed : ℕ) (prev : Bool) (s : Str) → has_no_digit (message_loop passed prev s) ≡ true
unfolding message_loop
loop_no_digit passed prev [] = refl
loop_no_digit passed prev (c ∷ s) =
    let round = message_step passed prev (c ∷ s) in
    rw (
      all-append round.out (message_loop round.passed round.prev_space s),
      step_no_digit passed prev (c ∷ s),
      loop_no_digit round.passed round.prev_space s,
    )

-- A message that is normalized has no ASCII digit.
pub normalize_message_no_digit : (message : Str) → has_no_digit (normalize_message message) ≡ true
unfolding normalize_message trim trim_by
normalize_message_no_digit message =
    let whole = message_loop 0 false (trim message) in
    no_digit-reverse (trim_start_by is_whitespace (reverse (trim_start_by is_whitespace whole))) (
      trim_start_no_digit is_whitespace (reverse (trim_start_by is_whitespace whole)) (
        no_digit-reverse (trim_start_by is_whitespace whole)
          (trim_start_no_digit is_whitespace whole (loop_no_digit 0 false (trim message)))))
