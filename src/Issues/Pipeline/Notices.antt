-- ===== src/Issues/Pipeline/Notices.antt =====
-- src/grouping/pipeline.rs: which notification is due, and whether a mute ends.
use soika.Base.{
  ℕ, ◌*◌, ◌+◌, ◌≡◌, refl, ap, ◌∙◌, arith, Bool, true, false, not, ◌&&◌, Option, none, some, List,
  [], ◌∷◌, ◌++◌, leb, if◌then◌else◌, ◌==◌,
}
use soika.Base.Int.{ℤ, pos, pos_part, ltb_ℤ}
use soika.Base.Time.{nanos_per_sec}
use soika.Base.Text.{Str}
use soika.Base.Result.{ok}
use soika.Issues.Types.{
  Uuid, Timestamp, Issue, IssueStatus, unresolved, resolved, muted, status_eq, IssueUpsert,
  UpsertOutcome, Event,
}
use soika.Issues.Store.{
  find, update, has_id, has_key, clear_mute, find_by_fingerprint, bump, upsert_once, Store,
  set_status, count_in_window,
}
use soika.Issues.History.{status_of, is_none, is_resolved}
use soika.Issues.Pipeline.{
  NotifyKind, nothing, new_issue as is_new_issue, regression, notify_kind, rate_since, rate_of,
  sound, unmute, resurface_if_rate_exceeded,
}

-- An event at a time counts towards a rate mute at `now`: it is not older than the mute, and not
-- older than the window.
abbrev counts : Option Timestamp → ℤ → Timestamp → Timestamp → Bool
counts none window now at = leb now (at + pos_part window * nanos_per_sec)
counts (some muted_at) window now at =
    leb muted_at at && leb now (at + pos_part window * nanos_per_sec)

counts_since :
    (muted_at : Option Timestamp) (window : ℤ) (now at : Timestamp)
    → leb (rate_since now window muted_at) at ≡ counts muted_at window now at
unfolding rate_since
counts_since none window now at = ground arith
counts_since (some m) window now at = ground arith

module _ {Json : Type 0} where
  -- Whether a muted issue's rate is reached by the stored events.
  pub rate_reached : Issue → Timestamp → List (Event Json) → Bool
  rate_reached i now es =
      status_eq i.status muted && elim (rate_of i.mute_threshold i.mute_window_seconds) [
        | none ↦ false
        | some (n, w) ↦ not (ltb_ℤ (pos (count_in_window i.id (rate_since now w i.muted_at) es)) n)
      ]

  count_in_window-snoc :
      (id : Uuid) (since : Timestamp) (es : List (Event Json)) (e : Event Json)
      → count_in_window id since (es ++ (e ∷ []))
        ≡ count_in_window id since es
          + (if e.issue_id == id && leb since e.received_at then 1 else 0)
  unfolding count_in_window
  count_in_window-snoc id since [] e = ground arith
  count_in_window-snoc id since (x ∷ es) e = ground (arith, count_in_window-snoc id since es e)

  pub unmute-row :
      (id : Uuid) (clock : Timestamp) (s : Store Json) (i : Issue)
      → find (has_id id) s.issues ≡ some i
      → let live =
          λ (j : Issue). record (clear_mute j) { status = unresolved; updated_at = clock } in
        unmute none id clock s
        ≡ (record s { issues = update (has_id id) live s.issues }, ok (some (live i)))
  unfolding unmute set_status
  unmute-row id clock s i e = ground arith

  pub resurface_lem :
      (i : Issue) (now clock : Timestamp) (s : Store Json)
      → resurface_if_rate_exceeded sound i now clock s
        ≡ (if rate_reached i now s.events then unmute none i.id clock s else (s, ok none))
  unfolding resurface_if_rate_exceeded rate_reached
  resurface_lem i now clock s = ground arith

  -- Whether an event at `now` ends the rate mute of the issue it found, in the words of the code.
  unfoldable rate_trips : Option Issue → Timestamp → List (Event Json) → Bool
  rate_trips none now es = false
  rate_trips (some c) now es =
      status_eq c.status muted && elim (rate_of c.mute_threshold c.mute_window_seconds) [
        | none ↦ false
        | some (n, w) ↦
            let since = rate_since now w c.muted_at in
            not (ltb_ℤ (pos (count_in_window c.id since es + (if leb since now then 1 else 0))) n)
      ]

  rate_reached-rate_trips :
      (c : Issue) (u : IssueUpsert) (es : List (Event Json)) (e : Event Json)
      → e.issue_id ≡ c.id
      → e.received_at ≡ u.seen_at
      → rate_reached (bump u c) u.seen_at (es ++ (e ∷ [])) ≡ rate_trips (some c) u.seen_at es
  unfolding rate_reached rate_trips bump
  rate_reached-rate_trips c u es e h k =
      go c.status (rate_of c.mute_threshold c.mute_window_seconds)
    where
      same :
          (since : Timestamp)
          → count_in_window c.id since (es ++ (e ∷ []))
            ≡ count_in_window c.id since es + (if leb since u.seen_at then 1 else 0)
      same since = ground (arith, count_in_window-snoc c.id since es e)

      go :
          (s : IssueStatus) (r : Option (ℤ × ℤ))
          → status_eq (if status_eq s resolved then unresolved else s) muted && elim r [
            | none ↦ false
            | some (n, w) ↦ not (
                ltb_ℤ
                  (pos (count_in_window c.id (rate_since u.seen_at w c.muted_at) (es ++ (e ∷ []))))
                  n)
          ]
            ≡ status_eq s muted && elim r [
              | none ↦ false
              | some (n, w) ↦
                  let since = rate_since u.seen_at w c.muted_at in
                  not (
                    ltb_ℤ
                      (pos (count_in_window c.id since es + (if leb since u.seen_at then 1 else 0)))
                      n)
            ]
      go unresolved r = refl
      go resolved r = refl
      go muted none = refl
      go muted (some (n, w)) =
          ap (λ m. not (ltb_ℤ (pos m) n)) (same (rate_since u.seen_at w c.muted_at))

-- The notification that is due.
abbrev pub notice : Option IssueStatus → Bool → NotifyKind
notice before true = regression
notice none false = is_new_issue
notice (some resolved) false = regression
notice (some unresolved) false = nothing
notice (some muted) false = nothing

pub notify_kind-notice :
    (u : UpsertOutcome) (before : Option Issue)
    → u.is_new ≡ is_none before
    → u.is_regression ≡ is_resolved (status_of before)
    → notify_kind u ≡ notice (status_of before) false
unfolding notify_kind
notify_kind-notice u none n r = ground arith
notify_kind-notice u (some c) n r = go c.status (r ∙ refl) n
  where
    go :
        (s : IssueStatus)
        → u.is_regression ≡ is_resolved (some s)
        → u.is_new ≡ false
        → (if u.is_regression then regression else if u.is_new then is_new_issue else nothing)
          ≡ notice (some s) false
    go unresolved r n = ground arith
    go resolved r n = ground arith
    go muted r n = ground arith

module _ {Json : Type 0} where
  outcome-rate_trips :
      (id : Uuid) (short_id : Str) (u : IssueUpsert) (rows : List Issue) (es : List (Event Json))
      (e : Event Json)
      → e.issue_id ≡ (upsert_once id short_id u rows).1.issue.id
      → e.received_at ≡ u.seen_at
      → rate_reached (upsert_once id short_id u rows).1.issue u.seen_at (es ++ (e ∷ []))
        ≡ rate_trips (find_by_fingerprint u.project_id u.fingerprint rows) u.seen_at es
  unfolding upsert_once find_by_fingerprint
  outcome-rate_trips id short_id u rows es e h k =
      go (find (has_key u.project_id u.fingerprint) rows) refl
    where
      go :
          (o : Option Issue)
          → find (has_key u.project_id u.fingerprint) rows ≡ o
          → rate_reached (upsert_once id short_id u rows).1.issue u.seen_at (es ++ (e ∷ []))
            ≡ rate_trips (find (has_key u.project_id u.fingerprint) rows) u.seen_at es
      go none q = rw (q, upsert_once) (unfold rate_reached rate_trips in refl)
      go (some c) q =
          rw (q, upsert_once) (rate_reached-rate_trips c u es e (rw (q, upsert_once) at h) k)

  -- The events of an issue that count.
  abbrev tally : Issue → ℤ → Timestamp → List (Event Json) → ℕ
  tally c window now [] = 0
  tally c window now (e ∷ es) =
      (if e.issue_id == c.id && counts c.muted_at window now e.received_at then 1 else 0)
      + tally c window now es

  abbrev ends_rate_mute : Issue → Option ℤ → Option ℤ → Timestamp → List (Event Json) → Bool
  ends_rate_mute c (some threshold) (some window) now es = not (
      ltb_ℤ (pos (tally c window now es + (if counts c.muted_at window now now then 1 else 0)))
        threshold)
  ends_rate_mute c _ _ now es = false

  -- Whether an event at `now` ends the rate mute of the issue it found: with itself, the issue's events
  -- that are not older than the mute and the window are as many as the threshold, or more.
  unfoldable pub trips : Option Issue → Timestamp → List (Event Json) → Bool
  trips none now es = false
  trips (some c) now es = elim c.status [
    | unresolved ↦ false
    | resolved ↦ false
    | muted ↦ ends_rate_mute c c.mute_threshold c.mute_window_seconds now es
  ]

  count_in_window-tally :
      (c : Issue) (window : ℤ) (now : Timestamp) (es : List (Event Json))
      → count_in_window c.id (rate_since now window c.muted_at) es ≡ tally c window now es
  unfolding count_in_window
  count_in_window-tally c window now [] = refl
  count_in_window-tally c window now (e ∷ es) = ground (
    arith,
    counts_since c.muted_at window now e.received_at,
    count_in_window-tally c window now es,
  )

  rate_trips-trips :
      (found : Option Issue) (now : Timestamp) (es : List (Event Json))
      → rate_trips found now es ≡ trips found now es
  unfolding rate_trips trips
  rate_trips-trips none now es = refl
  rate_trips-trips (some c) now es = go c.status c.mute_threshold c.mute_window_seconds
    where
      go :
          (s : IssueStatus) (threshold window : Option ℤ)
          → status_eq s muted && elim (rate_of threshold window) [
            | none ↦ false
            | some (n, w) ↦
                let since = rate_since now w c.muted_at in
                not
                  (ltb_ℤ (pos (count_in_window c.id since es + (if leb since now then 1 else 0))) n)
          ]
            ≡ elim s [
              | unresolved ↦ false
              | resolved ↦ false
              | muted ↦ ends_rate_mute c threshold window now es
            ]
      go unresolved threshold window = refl
      go resolved threshold window = refl
      go muted none window = refl
      go muted (some n) none = refl
      go muted (some n) (some w) =
          rw (count_in_window-tally c w now es, counts_since c.muted_at w now now) refl

  pub outcome-trips :
      (id : Uuid) (short_id : Str) (u : IssueUpsert) (rows : List Issue) (es : List (Event Json))
      (e : Event Json)
      → e.issue_id ≡ (upsert_once id short_id u rows).1.issue.id
      → e.received_at ≡ u.seen_at
      → rate_reached (upsert_once id short_id u rows).1.issue u.seen_at (es ++ (e ∷ []))
        ≡ trips (find_by_fingerprint u.project_id u.fingerprint rows) u.seen_at es
  outcome-trips id short_id u rows es e h k =
      outcome-rate_trips id short_id u rows es e h k
      ∙ rate_trips-trips (find_by_fingerprint u.project_id u.fingerprint rows) u.seen_at es
