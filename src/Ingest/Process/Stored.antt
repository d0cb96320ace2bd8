-- ===== src/Ingest/Process/Stored.antt =====
-- src/ingest/handlers.rs: `process_event` on top of the pipeline.
use soika.Base.{
  ◌==◌, ◌⊎◌, ◌≢◌, none, some, Option, map, filter, is_empty, Option-cases, Bool-cases, inl, inr,
  sym, ap, ◌∙◌, not, ◌≡◌, ◌↔◌, refl, Bool, true, false, List, [], ◌∷◌, ◌++◌, if◌then◌else◌,
}
use soika.Ingest.Request.{normalize_event_id}
use soika.Base.Text.{codes, to_lower, trim, Str}
use soika.Base.Result.{ok}
use soika.Issues.Store.{find_by_id, find_by_fingerprint}
use soika.Issues.Upsert.{IsTable}
use soika.Issues.Pipeline.{sound, IngestOutcome}
use soika.Issues.Pipeline.Sound.{Ingested, ingest-sound}
use soika.Issues.Pipeline.Notices.{trips}
use soika.Access.Projects.{Project}
use soika.Domain.MuteRule.{event_tags}
use soika.Ingest.Process.{
  Payload, Met, World, event_id_from_payload, upsert_of, tag_json, is_notified, settle, unwrap_or,
  process_event,
}
use soika.Ingest.Process.Rules.{IsDue, is_notified-IsDue}

-- At most one notification.
abbrev pub at_most_one : {A : Type 0} → Bool → A → List A
at_most_one true a = a ∷ []
at_most_one false a = []

append_nil : {A : Type 0} (l : List A) → l ++ [] ≡ l
append_nil [] = refl
append_nil (x ∷ l) = ap (λ r. x ∷ r) (append_nil l)

appended :
    {A : Type 0} (b : Bool) (l : List A) (a : A)
    → (if b then l ++ (a ∷ []) else l) ≡ l ++ at_most_one b a
appended true l a = refl
appended false l a = sym (append_nil l)

-- An id without the white space around it and without dashes, in lower case.
abbrev pub plain_id : Str → Str
plain_id raw = map to_lower (filter (λ c. not (c == b'-')) (trim raw))

-- The id of an event: the one that the SDK gave, made plain, or a new one if it gave none, or one of
-- which nothing is left.
abbrev pub IsIdOf : (P : Payload) → P.Value → Str → Str → Type 0
IsIdOf P payload new_id id =
    ((field : P.Value) × (raw : Str) × (P.get payload (codes "event_id") ≡ some field)
      × (P.as_str field ≡ some raw)
      × (plain_id raw ≢ [])
      × (id ≡ plain_id raw))
    ⊎ (((field : P.Value) (raw : Str)
          → P.get payload (codes "event_id") ≡ some field
          → P.as_str field ≡ some raw
          → plain_id raw ≡ [])
        × (id ≡ new_id))

event_id_from_payload-IsIdOf :
    (P : Payload) (payload : P.Value) (new_id : Str)
    → IsIdOf P payload new_id (unwrap_or P (event_id_from_payload P payload) new_id)
unfolding event_id_from_payload normalize_event_id
event_id_from_payload-IsIdOf P payload new_id =
    elim (Option-cases (P.get payload (codes "event_id"))) [
      | inl e ↦ inr (
        (λ field raw f g. let no : none ≡ some field = sym e ∙ f in cc),
        rw (event_id_from_payload, e) refl,
      )
      | inr (field, e) ↦ elim (Option-cases (P.as_str field)) [
        | inl f ↦ inr (
          (λ field' raw g h.
              let same : some field ≡ some field' = sym e ∙ g in
              let chosen : field ≡ field' = ap (field_or field) same in
              let no : none ≡ some raw = sym f ∙ ap P.as_str chosen ∙ h in cc),
          rw (event_id_from_payload, e, f) refl,
        )
        | inr (raw, f) ↦ elim (Bool-cases (is_empty (plain_id raw))) [
          | inl nothing_left ↦ inr (
            (λ field' raw' g h.
                let same : some field ≡ some field' = sym e ∙ g in
                let chosen : field ≡ field' = ap (field_or field) same in
                let text : some raw ≡ some raw' = sym f ∙ ap P.as_str chosen ∙ h in
                let same_raw : raw ≡ raw' = ap (field_or raw) text in
                ap plain_id (sym same_raw) ∙ empty (plain_id raw) nothing_left),
            rw (event_id_from_payload, e, f, nothing_left) refl,
          )
          | inr something ↦ inl (
            field,
            raw,
            e,
            f,
            (λ h. let no : true ≡ false = sym (ap is_empty h) ∙ something in cc),
            rw (event_id_from_payload, e, f, something) refl,
          )
        ]
      ]
    ]
  where
    field_or : {A : Type 0} → A → Option A → A
    field_or d none = d
    field_or d (some a) = a

    empty : (s : Str) → is_empty s ≡ true → s ≡ []
    empty [] h = refl
    empty (c ∷ s) h = cc

module _ (P : Payload) (enrich : P.Value → P.Value) (project : Project) (payload : P.Value)
    (met : Met) (w : World P.Value) where
  abbrev enriched : P.Value
  enriched = enrich payload

  abbrev event_id : Str
  event_id = unwrap_or P (event_id_from_payload P enriched) met.new_event_id

  -- Where ids and fingerprints are unique, the id made for a new issue is new, and the
  -- repositories do not fail, an event is accepted under the id that its SDK gave, made plain, or
  -- else a new one. The enriched payload is ingested and stored as the pipeline ingests it, and
  -- the issue is handed on for a notification once, or not at all. It is handed on exactly if
  -- there is something to tell, the project is not muted, and no rule that could be read has all
  -- its pairs, at least one, among the tags of the enriched payload.
  pub process_event-Ingested :
      met.faults ≡ sound
      → IsTable w.store.issues
      → find_by_id met.generated.issue_id w.store.issues ≡ none
      → let u = upsert_of P project.id enriched met.now in
        let before = find_by_fingerprint u.project_id u.fingerprint w.store.issues in
        let (w', result) = process_event P enrich project payload met w in
        (outcome : IngestOutcome P.Value) × (notified : Bool) × (id : Str) × IsIdOf P enriched
          met.new_event_id id
        × (result ≡ ok id)
        × Ingested u id enriched w.store before
            (trips before u.seen_at w.store.events)
            (w'.store, outcome)
        × (w'.spawned ≡ w.spawned ++ at_most_one notified (outcome.issue, outcome.notify))
        × ((notified ≡ true)
            ↔ IsDue outcome.notify project met.rules (event_tags (tag_json P) enriched))
  unfolding process_event settle
  process_event-Ingested faultless table fresh =
      let u = upsert_of P project.id enriched met.now in
      let ((store, outcome), runs, ingested) =
        ingest-sound met.generated u event_id enriched w.store table fresh in
      (
        outcome,
        is_notified P project outcome met.rules,
        event_id,
        event_id_from_payload-IsIdOf P enriched met.new_event_id,
        rw (faultless, runs, process_event) refl,
        rw (faultless, runs, process_event) ingested,
        rw (faultless, runs, process_event)
            (appended (is_notified P project outcome met.rules) w.spawned
              (outcome.issue, outcome.notify)),
        is_notified-IsDue P project outcome met.rules enriched ingested.carried,
      )
