-- ===== src/Ingest/RateLimit/Budget.antt =====
-- src/ingest/ratelimit.rs: what a project may spend.
use soika.Base.{
  ℕ, ◌+◌, ◌-◌, ◌*◌, ◌≤◌, ◌<◌, ◌≡◌, refl, sym, ap, ◌∙◌, Option, none, some, List, [], ◌∷◌, min,
  arith, true, false, Bool-cases, Option-cases, if◌then◌else◌, ltb, leb, leb→le, ◌⊎◌, inl, inr, ◌≢◌,
}
use soika.Base.Text.{Str, str_eq, str_eq_ne, str_eq_iff}
use soika.Base.Dict.{lookup, lookup-insert}
use soika.Base.Time.{Instant, Duration}
use soika.Ingest.RateLimit.{
  Decision, allow, limited, Window, RateLimiter, window_or, roll, spend, check_at, Request,
}

abbrev pub is_allowed : Decision → ℕ
is_allowed allow = 1
is_allowed (limited _) = 0

-- How many requests of one project a history lets through.
unfoldable pub granted : Str → RateLimiter → List Request → ℕ
granted k rl [] = 0
granted k rl ((key, now) ∷ reqs) =
    (if str_eq key k then is_allowed (check_at rl key now).1 else 0)
    + granted k (check_at rl key now).0 reqs

-- How many it makes.
unfoldable pub requests : Str → List Request → ℕ
requests k [] = 0
requests k ((key, now) ∷ reqs) = (if str_eq key k then 1 else 0) + requests k reqs

-- The requests of project `k` come at times from `a` on and before `b`.
abbrev pub Between : Str → Instant → Instant → List Request → Type 0
Between k a b [] = Unit {0}
Between k a b ((key, now) ∷ reqs) =
    (str_eq key k ≡ true → (a ≤ now) × (now < b)) × Between k a b reqs

-- The budget is kept by every window that the limiter stores.
abbrev pub IsWithin : RateLimiter → Type 0
IsWithin rl = (k : Str) (w : Window) → lookup k rl.state ≡ some w → w.count ≤ rl.limit

-- What a request at `now` makes of the window stored for its project.
unfoldable pub outcome : ℕ → Duration → Option Window → Instant → Window × Decision
unfolding roll spend
outcome limit window o now =
    spend limit window now
      (roll window now (window_or o (record { window_start = now; count = 0 })))

abbrev outcome_of : RateLimiter → Str → Instant → Window × Decision
outcome_of rl k now = outcome rl.limit rl.window (lookup k rl.state) now

lookup-check_at :
    (rl : RateLimiter) (k j : Str) (now : Instant)
    → lookup j (check_at rl k now).0.state
      ≡ (if str_eq k j then some (outcome_of rl k now).0 else lookup j rl.state)
unfolding check_at outcome
lookup-check_at rl k j now = lookup-insert k j _ rl.state

check_at-decision :
    (rl : RateLimiter) (k : Str) (now : Instant) → (check_at rl k now).1 ≡ (outcome_of rl k now).1
unfolding check_at outcome
check_at-decision rl k now = refl

check_at-limit :
    (rl : RateLimiter) (k : Str) (now : Instant)
    → ((check_at rl k now).0.limit ≡ rl.limit) × ((check_at rl k now).0.window ≡ rl.window)
unfolding check_at
check_at-limit rl k now = (refl, refl)

lookup-check_at_ne :
    (rl : RateLimiter) (k j : Str) (now : Instant)
    → str_eq k j ≡ false
    → lookup j (check_at rl k now).0.state ≡ lookup j rl.state
lookup-check_at_ne rl k j now h = lookup-check_at rl k j now ∙ rw h

lookup-check_at_self :
    (rl : RateLimiter) (k j : Str) (now : Instant)
    → str_eq k j ≡ true
    → lookup j (check_at rl k now).0.state ≡ some (outcome_of rl k now).0
lookup-check_at_self rl k j now h = lookup-check_at rl k j now ∙ rw h

-- A request of one project leaves the window of every other project as it was, and the decision
-- on another project is the one that would have been made without it.
pub check_at_independent :
    (rl : RateLimiter) (k j : Str) (now later : Instant)
    → k ≢ j
    → (lookup j (check_at rl k now).0.state ≡ lookup j rl.state)
      × ((check_at (check_at rl k now).0 j later).1 ≡ (check_at rl j later).1)
check_at_independent rl k j now later h =
    let same = lookup-check_at_ne rl k j now (str_eq_ne k j h) in
    (
      same,
      cc (
        check_at-decision (check_at rl k now).0 j later,
        check_at-decision rl j later,
        same,
        (check_at-limit rl k now).0,
        (check_at-limit rl k now).1,
      ),
    )

outcome-count :
    (limit : ℕ) (window : Duration) (o : Option Window) (now : Instant)
    → ((w : Window) → o ≡ some w → w.count ≤ limit)
    → (outcome limit window o now).0.count ≤ limit
unfolding outcome
outcome-count limit window none now v = ground arith
outcome-count limit window (some w) now v = ground (arith, v w refl)

-- A request keeps every stored count within the budget, if the stored ones are.
pub check_at-IsWithin :
    (rl : RateLimiter) (k : Str) (now : Instant) → IsWithin rl → IsWithin (check_at rl k now).0
check_at-IsWithin rl k now v j w e =
    let kept = (check_at-limit rl k now).0 in
    elim (Bool-cases (str_eq k j)) [
      | inl same ↦
          let stored = sym (lookup-check_at_self rl k j now same) ∙ e in
          ground
            (arith, kept, stored, outcome-count rl.limit rl.window (lookup k rl.state) now (v k))
      | inr other ↦ ground (arith, kept, v j w (sym (lookup-check_at_ne rl k j now other) ∙ e))
    ]

-- A window that is still open and has budget left lets one request through; one without is shut.
outcome_open :
    (limit : ℕ) (window : Duration) (w : Window) (now : Instant)
    → now - w.window_start < window
    → (is_allowed (outcome limit window (some w) now).1 ≡ (if ltb w.count limit then 1 else 0))
      × ((outcome limit window (some w) now).0
          ≡ (if ltb w.count limit then record w { count = w.count + 1 } else w))
unfolding outcome
outcome_open limit window w now h = ground arith

outcome_fresh :
    (limit : ℕ) (window : Duration) (o : Option Window) (now : Instant)
    → 0 < window
    → (o ≡ none) ⊎ ((w : Window) × (o ≡ some w) × (window ≤ now - w.window_start))
    → (is_allowed (outcome limit window o now).1 ≡ (if ltb 0 limit then 1 else 0))
      × ((outcome limit window o now).0
          ≡ record { window_start = now; count = if ltb 0 limit then 1 else 0 })
unfolding outcome
outcome_fresh limit window o now p h = ground arith

module _ (k : Str) (rl : RateLimiter) (key : Str) (now : Instant) (o : Option Window)
    (same : str_eq key k ≡ true) (at : lookup k rl.state ≡ o) where
  at_key : lookup key rl.state ≡ o
  at_key = ap (λ s. lookup s rl.state) ((str_eq_iff key k).0 same) ∙ at

  step_decision : (check_at rl key now).1 ≡ (outcome rl.limit rl.window o now).1
  step_decision = cc (check_at-decision rl key now, at_key)

  step_lookup : lookup k (check_at rl key now).0.state ≡ some (outcome rl.limit rl.window o now).0
  step_lookup = cc (lookup-check_at_self rl key k now same, at_key)

-- Before the window of `k` closes, as many requests pass as budget is left, and no more.
granted_open :
    (k : Str) (a b : Instant) (reqs : List Request) (rl : RateLimiter) (w : Window)
    → lookup k rl.state ≡ some w
    → 0 < rl.window
    → b ≤ w.window_start + rl.window
    → Between k a b reqs
    → granted k rl reqs ≡ min (rl.limit - w.count) (requests k reqs)
unfolding granted requests
granted_open k a b [] rl w at p h t = omega arith
granted_open k a b ((key, now) ∷ reqs) rl w at p h t =
    let kept = check_at-limit rl key now in
    let rl' = (check_at rl key now).0 in
    elim (Bool-cases (str_eq key k)) [
      | inl same ↦
          let opened = outcome_open rl.limit rl.window w now (ground (arith, t.0 same)) in
          let w' = if ltb w.count rl.limit then record w { count = w.count + 1 } else w in
          ground (
            arith,
            kept,
            opened,
            step_decision k rl key now (some w) same at,
            granted_open k a b reqs rl' w'
                (step_lookup k rl key now (some w) same at ∙ ap some opened.1)
                (ground (arith, kept.1)) (ground (arith, kept.1)) t.1,
          )
      | inr other ↦ ground (
        arith,
        kept,
        granted_open k a b reqs rl' w (lookup-check_at_ne rl key k now other ∙ at)
            (ground (arith, kept.1)) (ground (arith, kept.1)) t.1,
      )
    ]

-- Once a window is over, or before the first request, a new one opens with the whole budget.
granted_anew :
    (k : Str) (a : Instant) (key : Str) (now : Instant) (reqs : List Request) (rl : RateLimiter)
    (o : Option Window)
    → lookup k rl.state ≡ o
    → (o ≡ none) ⊎ ((w : Window) × (o ≡ some w) × (rl.window ≤ now - w.window_start))
    → 0 < rl.window
    → str_eq key k ≡ true
    → Between k a (a + rl.window) ((key, now) ∷ reqs)
    → granted k rl ((key, now) ∷ reqs) ≡ min rl.limit (requests k ((key, now) ∷ reqs))
unfolding granted requests
granted_anew k a key now reqs rl o at over p same t =
    let kept = check_at-limit rl key now in
    let fresh = outcome_fresh rl.limit rl.window o now p over in
    let w : Window = record { window_start = now; count = if ltb 0 rl.limit then 1 else 0 } in
    ground (
      arith,
      kept,
      fresh,
      step_decision k rl key now o same at,
      granted_open k a (a + rl.window) reqs (check_at rl key now).0 w
          (step_lookup k rl key now o same at ∙ ap some fresh.1) (ground (arith, kept.1))
          (ground (arith, kept.1, t.0 same)) t.1,
    )

-- A project that the limiter does not know yet, and whose requests all come within one window's
-- length, has exactly `limit` of them let through, or all of them if they are fewer.
pub granted_fresh :
    (k : Str) (a : Instant) (reqs : List Request) (rl : RateLimiter)
    → lookup k rl.state ≡ none
    → 0 < rl.window
    → Between k a (a + rl.window) reqs
    → granted k rl reqs ≡ min rl.limit (requests k reqs)
unfolding granted requests
granted_fresh k a [] rl at p t = omega arith
granted_fresh k a ((key, now) ∷ reqs) rl at p t = elim (Bool-cases (str_eq key k)) [
  | inl same ↦ granted_anew k a key now reqs rl none at (inl refl) p same t
  | inr other ↦
      let kept = check_at-limit rl key now in
      ground (
        arith,
        kept,
        granted_fresh k a reqs (check_at rl key now).0 (lookup-check_at_ne rl key k now other ∙ at)
            (ground (arith, kept.1)) (rw kept.1 t.1),
      )
]

granted_stored :
    (k : Str) (a : Instant) (reqs : List Request) (rl : RateLimiter) (w : Window)
    → lookup k rl.state ≡ some w
    → 0 < rl.window
    → Between k a (a + rl.window) reqs
    → granted k rl reqs ≤ (rl.limit - w.count) + rl.limit
unfolding granted
granted_stored k a [] rl w at p t = omega arith
granted_stored k a ((key, now) ∷ reqs) rl w at p t =
    let kept = check_at-limit rl key now in
    let rl' = (check_at rl key now).0 in
    elim (Bool-cases (str_eq key k)) [
      | inl same ↦ elim (Bool-cases (leb rl.window (now - w.window_start))) [
        | inl over ↦ omega (
          arith,
          granted_anew k a key now reqs rl (some w) at (inr (w, refl, leb→le _ _ over)) p same t,
        )
        | inr still ↦
            let opened = outcome_open rl.limit rl.window w now (ground arith) in
            let w' = if ltb w.count rl.limit then record w { count = w.count + 1 } else w in
            ground (
              arith,
              kept,
              opened,
              step_decision k rl key now (some w) same at,
              granted_stored k a reqs rl' w'
                  (step_lookup k rl key now (some w) same at ∙ ap some opened.1)
                  (ground (arith, kept.1)) (rw kept.1 t.1),
            )
      ]
      | inr other ↦ ground (
        arith,
        kept,
        granted_stored k a reqs rl' w (lookup-check_at_ne rl key k now other ∙ at)
            (ground (arith, kept.1)) (rw kept.1 t.1),
      )
    ]

-- Whatever a limiter has stored, requests of one project that come within one window's length
-- have at most `2 * limit` let through: a fixed window can be met at its end and again at the
-- start of the next.
pub granted_bound :
    (k : Str) (a : Instant) (reqs : List Request) (rl : RateLimiter)
    → 0 < rl.window
    → Between k a (a + rl.window) reqs
    → granted k rl reqs ≤ 2 * rl.limit
granted_bound k a reqs rl p t = elim (Option-cases (lookup k rl.state)) [
  | inl e ↦ omega (arith, granted_fresh k a reqs rl e p t)
  | inr (w, e) ↦ omega (arith, granted_stored k a reqs rl w e p t)
]
