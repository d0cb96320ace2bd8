-- ===== src/Ingest/Process.antt =====
-- src/ingest/handlers.rs: `process_event`, with the head of `ingest_normalized` of
-- src/grouping/pipeline.rs. The enrichment of a payload from its request is a function that is given.
pub mod Rules
pub mod Stored
use soika.Base.{
  ℕ, Bool, true, false, ◌||◌, ◌&&◌, not, Option, none, some, List, [], ◌∷◌, ◌++◌, any, is_empty,
  if◌then◌else◌,
}
use soika.Base.Int.{ℤ}
use soika.Base.Text.{Str, codes}
use soika.Base.Dict.{Dict}
use soika.Base.Result.{Result, ok, err}
use soika.Errors.{Error}
use soika.Issues.Types.{Uuid, Timestamp, Issue, IssueUpsert}
use soika.Issues.Store.{Store}
use soika.Issues.Pipeline.{
  NotifyKind, nothing, new_issue, regression, Faults, Generated, IngestOutcome, ingest,
}
use soika.Access.Projects.{Project}
use soika.Domain.MuteRule.{TagJson, TagMuteRule, matches, event_tags}
use soika.Grouping.Stacktrace.{NormalizedEvent, string_field, from_value}
use soika.Grouping.Stacktrace
use soika.Grouping.Fingerprint.{
  fingerprint_normalized, title_from_normalized, culprit_from_normalized,
}
use soika.Ingest.Request.{normalize_event_id}

-- The calls of `serde_json` on a value that the handlers and the readers of a payload make.
pub record Payload : Type 1 where
  pub Value : Type 0
  pub from_slice : Str → Option Value
  pub get : Value → Str → Option Value
  pub as_u64 : Value → Option ℕ
  pub as_str : Value → Option Str
  pub as_array : Value → Option (List Value)
  pub as_object : Value → Option (List (Str × Value))
  pub as_bool : Value → Option Bool
  pub as_i64 : Value → Option ℤ
  pub as_f64 : Value → Option ℤ
  pub scalar : Value → Option Str
  pub parse_int : Str → Option ℤ
  pub show_int : ℤ → Str

abbrev is_some {ℓ} : {A : Type ℓ} → Option A → Bool
is_some none = false
is_some (some a) = true

abbrev pub stack_json : Payload → Stacktrace.Json
stack_json P = record {
  Value = P.Value;
  get = P.get;
  as_str = P.as_str;
  as_array = P.as_array;
  as_bool = P.as_bool;
  as_i64 = P.as_i64;
  as_f64 = P.as_f64;
  is_object = λ v. is_some (P.as_object v);
  parse_i64 = P.parse_int;
}

abbrev pub tag_json : (P : Payload) → TagJson P.Value
tag_json P = record {
  get = P.get;
  as_object = P.as_object;
  as_array = P.as_array;
  scalar = P.scalar;
}

-- `tag_muted`, on the answer of the repository.
unfoldable pub tag_muted : Result Error (List TagMuteRule) → Dict Str → Bool
unfolding matches
tag_muted rules tags =
    if is_empty tags
    then false
    else elim rules [ err e ↦ false | ok list ↦ any (λ rule. matches rule tags) list ]

-- What the processing of one event meets: the clock, the ids that are made, the errors of the
-- repositories, and their answer on the rules.
pub record Met : Type 0 where
  pub now : Timestamp
  pub new_event_id : Str
  pub generated : Generated
  pub faults : Faults
  pub rules : Result Error (List TagMuteRule)

-- The tables, and the notifications handed to background tasks.
pub record World (Value : Type 0) : Type 0 where
  pub store : Store Value
  pub spawned : List (Issue × NotifyKind)

abbrev pub is_nothing : NotifyKind → Bool
is_nothing nothing = true
is_nothing _ = false

module _ (P : Payload) where
  unfoldable pub event_id_from_payload : P.Value → Option Str
  unfolding normalize_event_id
  event_id_from_payload payload = elim (P.get payload (codes "event_id")) [
    | none ↦ none
    | some v ↦ elim (P.as_str v) [
      | none ↦ none
      | some raw ↦ let id = normalize_event_id raw in if is_empty id then none else some id
    ]
  ]

  -- The upsert of `ingest_normalized`.
  unfoldable pub upsert_of : Uuid → P.Value → Timestamp → IssueUpsert
  unfolding from_value fingerprint_normalized title_from_normalized culprit_from_normalized
      string_field
  upsert_of project_id payload seen_at =
      let normalized = from_value (stack_json P) payload in
      record {
        project_id = project_id;
        fingerprint = fingerprint_normalized normalized;
        title = title_from_normalized normalized;
        culprit = culprit_from_normalized P.show_int normalized;
        level = normalized.level;
        environment = string_field (stack_json P) payload (codes "environment");
        release = string_field (stack_json P) payload (codes "release");
        seen_at = seen_at;
      }

  -- Whether the outcome is handed on for delivery.
  unfoldable pub is_notified :
      Project → IngestOutcome P.Value → Result Error (List TagMuteRule) → Bool
  unfolding tag_muted event_tags
  is_notified project outcome rules =
      not (is_nothing outcome.notify || project.muted)
      && not (tag_muted rules (event_tags (tag_json P) outcome.event.payload))

  unfoldable pub settle :
      Project
      → Met
      → Str
      → List (Issue × NotifyKind)
      → Store P.Value × Result Error (IngestOutcome P.Value)
      → World P.Value × Result Error Str
  unfolding is_notified
  settle project met event_id spawned (store, err e) =
      (record { store = store; spawned = spawned }, err e)
  settle project met event_id spawned (store, ok outcome) = (
    record {
      store = store;
      spawned =
          if is_notified project outcome met.rules
          then spawned ++ ((outcome.issue, outcome.notify) ∷ [])
          else spawned;
    },
    ok event_id,
  )

  abbrev pub unwrap_or : Option Str → Str → Str
  unwrap_or none other = other
  unwrap_or (some s) other = s

  -- `enrich` is the payload with what the request tells.
  unfoldable pub process_event :
      (P.Value → P.Value)
      → Project
      → P.Value
      → Met
      → World P.Value
      → World P.Value × Result Error Str
  unfolding event_id_from_payload upsert_of settle
  process_event enrich project payload met w =
      let enriched = enrich payload in
      let event_id = unwrap_or (event_id_from_payload enriched) met.new_event_id in
      settle project met event_id w.spawned (
        ingest met.faults met.generated (upsert_of project.id enriched met.now) event_id enriched
          w.store)
