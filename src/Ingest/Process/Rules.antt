-- ===== src/Ingest/Process/Rules.antt =====
-- src/ingest/handlers.rs: when `process_event` hands an issue on for a notification.
use soika.Base.{
  ◌≡◌, ◌≢◌, ◌↔◌, Option, some, any, all, is_empty, &&_true, Bool-cases, inl, inr, refl, sym, ap,
  ◌∙◌, Bool, true, false, not, ◌&&◌, ◌||◌, none, List, [], ◌∷◌, if◌then◌else◌,
}
use soika.Base.Text.{Str, str_eq_iff, str_eq_refl}
use soika.Base.Dict.{Dict, lookup}
use soika.Base.Result.{Result, ok, err}
use soika.Errors.{Error}
use soika.Issues.Pipeline.{NotifyKind, nothing, new_issue, regression, IngestOutcome}
use soika.Access.Projects.{Project}
use soika.Domain.MuteRule.{TagMatch, TagMuteRule, is_some_eq, matches, event_tags}
use soika.Ingest.Process.{Payload, is_nothing, tag_json, tag_muted, is_notified}

-- The tags of an event have each pair of a list.
abbrev pub Carries : Dict Str → List TagMatch → Type 0
Carries tags [] = Unit {0}
Carries tags (t ∷ ts) = (lookup t.key tags ≡ some t.value) × Carries tags ts

-- A rule applies to an event that carries all its pairs, at least one.
abbrev pub Applies : Dict Str → TagMuteRule → Type 0
Applies tags rule = (rule.tags ≢ []) × Carries tags rule.tags

-- No rule that could be read applies.
abbrev pub NoneApplies : Dict Str → List TagMuteRule → Type 0
NoneApplies tags [] = Unit {0}
NoneApplies tags (rule ∷ rules) = ¬ Applies tags rule × NoneApplies tags rules

abbrev pub IsUnmuted : Dict Str → Result Error (List TagMuteRule) → Type 0
IsUnmuted tags (err e) = Unit {0}
IsUnmuted tags (ok rules) = NoneApplies tags rules

all-Carries :
    (tags : Dict Str) (ts : List TagMatch)
    → (all (λ t. is_some_eq (lookup t.key tags) t.value) ts ≡ true) ↔ Carries tags ts
all-Carries tags [] = (λ h. tt, λ h. refl)
all-Carries tags (t ∷ ts) = (
  (λ h.
      let (here, there) =
        &&_true (is_some_eq (lookup t.key tags) t.value)
          (all (λ t. is_some_eq (lookup t.key tags) t.value) ts) h in
      (same (lookup t.key tags) t.value here, (all-Carries tags ts).0 there)),
  (λ (here, there). rw (here, str_eq_refl t.value) ((all-Carries tags ts).1 there)),
)
  where
    same : (o : Option Str) (value : Str) → is_some_eq o value ≡ true → o ≡ some value
    same none value h = cc
    same (some v) value h = ap some ((str_eq_iff v value).0 h)

matches-Applies :
    (tags : Dict Str) (rule : TagMuteRule) → (matches rule tags ≡ true) ↔ Applies tags rule
unfolding matches
matches-Applies tags rule = go rule.tags
  where
    go :
        (ts : List TagMatch)
        → ((if is_empty ts then false else all (λ t. is_some_eq (lookup t.key tags) t.value) ts)
            ≡ true)
          ↔ ((ts ≢ []) × Carries tags ts)
    go [] = (λ h. cc, λ (some_tag, c). absurd (some_tag refl))
    go (t ∷ ts) = (
      (λ h. ((λ e. cc), (all-Carries tags (t ∷ ts)).0 h)),
      (λ (some_tag, c). (all-Carries tags (t ∷ ts)).1 c),
    )

any-NoneApplies :
    (tags : Dict Str) (rules : List TagMuteRule)
    → (any (λ rule. matches rule tags) rules ≡ false) ↔ NoneApplies tags rules
any-NoneApplies tags [] = (λ h. tt, λ h. refl)
any-NoneApplies tags (rule ∷ rules) = elim (Bool-cases (matches rule tags)) [
  | inl hit ↦ (
    (λ h. let no : true ≡ false = rw hit at h in cc),
    (λ (unmatched, rest). absurd (unmatched ((matches-Applies tags rule).0 hit))),
  )
  | inr miss ↦ (
    (λ h. (
      (λ a. let no : true ≡ false = sym ((matches-Applies tags rule).1 a) ∙ miss in cc),
      (any-NoneApplies tags rules).0 (rw miss at h),
    )),
    (λ (unmatched, rest). rw miss ((any-NoneApplies tags rules).1 rest)),
  )
]

never_carried : (ts : List TagMatch) → ts ≢ [] → Carries [] ts → ⊥
unfolding lookup
never_carried [] h c = h refl
never_carried (t ∷ ts) h (here, there) = cc

-- Without tags no rule applies.
no_tags : (rules : List TagMuteRule) → NoneApplies [] rules
no_tags [] = tt
no_tags (rule ∷ rules) = (λ (some_tag, c). never_carried rule.tags some_tag c, no_tags rules)

tag_muted-IsUnmuted :
    (rules : Result Error (List TagMuteRule)) (tags : Dict Str)
    → (tag_muted rules tags ≡ false) ↔ IsUnmuted tags rules
unfolding tag_muted
tag_muted-IsUnmuted (err e) [] = (λ h. tt, λ h. refl)
tag_muted-IsUnmuted (err e) (t ∷ tags) = (λ h. tt, λ h. refl)
tag_muted-IsUnmuted (ok rules) [] = (λ h. no_tags rules, λ h. refl)
tag_muted-IsUnmuted (ok rules) (t ∷ tags) = any-NoneApplies (t ∷ tags) rules

-- A notification is due: there is something to tell, the project is not muted, and no rule applies.
abbrev pub IsDue : NotifyKind → Project → Result Error (List TagMuteRule) → Dict Str → Type 0
IsDue notify project rules tags =
    (notify ≢ nothing) × (project.muted ≡ false) × IsUnmuted tags rules

is_nothing_iff : (n : NotifyKind) → (is_nothing n ≡ false) ↔ (n ≢ nothing)
is_nothing_iff nothing = (λ h. cc, λ h. absurd (h refl))
is_nothing_iff new_issue = (λ h e. cc, λ h. refl)
is_nothing_iff regression = (λ h e. cc, λ h. refl)

is_due_parts :
    (a b c : Bool) → (not (a || b) && not c ≡ true) ↔ ((a ≡ false) × (b ≡ false) × (c ≡ false))
is_due_parts true b c = (λ h. cc, λ (h, k, l). cc)
is_due_parts false true c = (λ h. cc, λ (h, k, l). cc)
is_due_parts false false true = (λ h. cc, λ (h, k, l). cc)
is_due_parts false false false = (λ h. (refl, refl, refl), λ h. refl)

pub is_notified-IsDue :
    (P : Payload) (project : Project) (outcome : IngestOutcome P.Value)
    (rules : Result Error (List TagMuteRule)) (payload : P.Value)
    → outcome.event.payload ≡ payload
    → (is_notified P project outcome rules ≡ true)
      ↔ IsDue outcome.notify project rules (event_tags (tag_json P) payload)
unfolding is_notified
is_notified-IsDue P project outcome rules payload carried =
    let tags = event_tags (tag_json P) payload in
    let same : tag_muted rules (event_tags (tag_json P) outcome.event.payload)
        ≡ tag_muted rules tags =
      ap (λ v. tag_muted rules (event_tags (tag_json P) v)) carried in
    let parts =
      is_due_parts (is_nothing outcome.notify) project.muted
        (tag_muted rules (event_tags (tag_json P) outcome.event.payload)) in
    (
      (λ h.
          let (something, live, unmuted) = parts.0 h in
          (
            (is_nothing_iff outcome.notify).0 something,
            live,
            (tag_muted-IsUnmuted rules tags).0 (sym same ∙ unmuted),
          )),
      (λ (something, live, unmuted). parts.1 (
        (is_nothing_iff outcome.notify).1 something,
        live,
        same ∙ (tag_muted-IsUnmuted rules tags).1 unmuted,
      )),
    )
