-- ===== src/Ingest/Handlers.antt =====
-- src/ingest/handlers.rs: the two endpoints, `envelope` and `store`. What they call of other libraries
-- comes with the payloads and the decoders.
pub mod Gate
pub mod Answers
mod Tests
use soika.Base.{
  ℕ, zero, suc, Bool, true, false, not, Option, none, some, List, [], ◌∷◌, max, if◌then◌else◌, ◌==◌,
}
use soika.Base.Text.{Str, codes, str_eq}
use soika.Base.Time.{Instant, Duration, as_secs}
use soika.Base.Result.{Result, ok, err}
use soika.Errors.{Error, is_busy}
use soika.Issues.Types.{Uuid}
use soika.Access.Projects.{Project}
use soika.Ingest.RateLimit.{RateLimiter, Decision, allow, limited, check_at}
use soika.Ingest.Envelope.{EnvelopeItem, Envelope, parse, item_type, payload_json, header_event_id}
use soika.Ingest.Envelope
use soika.Ingest.Request.{
  Headers, Decoders, DecodeError, corrupt, too_large, extract_dsn_key, decode_body,
}
use soika.Ingest.Process.{Payload, Met, World, process_event, unwrap_or}

pub record Response : Type 0 where
  pub status : ℕ
  pub detail : Str
  pub retry_after : Option ℕ
  pub id : Option Str

abbrev pub refusal : ℕ → Str → Response
refusal status detail = record { status = status; detail = detail; retry_after = none; id = none }

abbrev pub unauthorized : Str → Response
unauthorized = refusal 401

abbrev pub bad_request : Str → Response
bad_request = refusal 400

abbrev pub payload_too_large : Str → Response
payload_too_large = refusal 413

abbrev pub internal_error : Response
internal_error = refusal 500 (codes "internal error")

abbrev pub rate_limited : ℕ → Response
rate_limited retry_after_secs = record (refusal 429 (codes "rate limited")) {
  retry_after = some retry_after_secs;
}

abbrev pub busy : ℕ → Response
busy retry_after_secs = record (refusal 429 (codes "database busy")) {
  retry_after = some retry_after_secs;
}

abbrev pub accepted : Str → Response
accepted id = record { status = 200; detail = []; retry_after = none; id = some id }

unfoldable pub failed_response : Duration → Error → Response
failed_response busy_retry_after e =
    if is_busy e then busy (max (as_secs busy_retry_after) 1) else internal_error

-- A request, with the reading of the limiter's clock.
pub record Request : Type 0 where
  pub headers : Headers
  pub query : Option Str
  pub body : Str
  pub at : Instant

-- The repository of projects, the decoders, the texts of ids, and the configured wait.
pub record State : Type 0 where
  pub find_by_dsn : Str → Result Error (Option Project)
  pub decoders : Decoders
  pub show_id : Uuid → Str
  pub busy_retry_after : Duration

abbrev pub is_none {ℓ} : {A : Type ℓ} → Option A → Bool
is_none none = true
is_none (some a) = false

-- The end of `authorize_and_decode`, by what the decoding gives.
unfoldable pub decoded : Project → Result DecodeError Str → Result Response (Project × Str)
decoded project (ok body) = ok (project, body)
decoded project (err too_large) = err (payload_too_large (codes "decompressed body too large"))
decoded project (err corrupt) = err (bad_request (codes "could not decode body"))

-- What follows the check of the limiter, for a project that is not read-only.
unfoldable pub limit_and_decode :
    State → Request → Project → Decision → Result Response (Project × Str)
unfolding decoded decode_body
limit_and_decode state request project (limited retry_after_secs) =
    err (rate_limited retry_after_secs)
limit_and_decode state request project allow =
    decoded project (decode_body state.decoders request.headers request.body)

-- What follows the look-up of the project. A project that is read-only is refused, and still counted.
unfoldable pub admit :
    State → Request → Project → RateLimiter → RateLimiter × Result Response (Project × Str)
unfolding check_at limit_and_decode
admit state request project limiter =
    let (limiter', decision) = check_at limiter (state.show_id project.id) request.at in
    (
      limiter',
      if not (is_none project.orphaned_at)
          then err (refusal 403 (codes "project is read-only"))
          else limit_and_decode state request project decision,
    )

unfoldable pub authorize_and_decode :
    State → Request → RateLimiter → RateLimiter × Result Response (Project × Str)
unfolding extract_dsn_key admit
authorize_and_decode state request limiter = elim (extract_dsn_key request.headers request.query) [
  | none ↦ (limiter, err (unauthorized (codes "missing sentry key")))
  | some dsn_key ↦ elim (state.find_by_dsn dsn_key) [
    | err e ↦ (limiter, err internal_error)
    | ok none ↦ (limiter, err (unauthorized (codes "unknown sentry key")))
    | ok (some project) ↦ admit state request project limiter
  ]
]

module _ (P : Payload) where
  abbrev pub json : Envelope.Json
  json = record {
    Value = P.Value;
    from_slice = P.from_slice;
    get = P.get;
    as_u64 = P.as_u64;
    as_str = P.as_str;
  }

  abbrev is_event : Option Str → Bool
  is_event none = false
  is_event (some kind) = str_eq kind (codes "event")

  unfoldable pub is_ingestible_event : EnvelopeItem json → Bool
  unfolding item_type
  is_ingestible_event item = is_event (item_type json item)

  abbrev first_of : Option Str → Str → Option Str
  first_of none id = some id
  first_of (some id) other = some id

  module _ (state : State) (project : Project) (enrich : P.Value → P.Value) where
    -- The loop over the items. `met` gives what each event that is processed meets, in turn.
    unfoldable pub process_items :
        (ℕ → Met)
        → List (EnvelopeItem json)
        → Option Str
        → World P.Value
        → World P.Value × Result Response (Option Str)
    unfolding is_ingestible_event process_event failed_response
    process_items met [] accepted_event_id w = (w, ok accepted_event_id)
    process_items met (item ∷ items) accepted_event_id w =
        let skipped = process_items met items accepted_event_id w in
        if not (is_ingestible_event item) then skipped else elim (payload_json json item) [
          | err e ↦ skipped
          | ok payload ↦
              let (w', result) = process_event P enrich project payload (met 0) w in
              elim result [
                | err e ↦ (w', err (failed_response state.busy_retry_after e))
                | ok event_id ↦
                    process_items (λ n. met (suc n)) items (first_of accepted_event_id event_id) w'
              ]
        ]

    abbrev or_header : Option Str → Option Str → Option Str
    or_header none header = header
    or_header (some id) header = some id

    abbrev pub answer :
        Option Str → Str → World P.Value × Result Response (Option Str) → World P.Value × Response
    answer header_id new_id (w, err response) = (w, response)
    answer header_id new_id (w, ok accepted_event_id) =
        (w, accepted (unwrap_or P (or_header accepted_event_id header_id) new_id))

    -- `envelope` behind its preamble. `new_id` is the id that is made for the answer.
    unfoldable pub envelope_decoded :
        (ℕ → Met) → Str → Str → World P.Value → Option (World P.Value × Response)
    unfolding parse header_event_id process_items
    envelope_decoded met new_id body w = elim (parse json body) [
      | none ↦ none
      | some (err e) ↦ some (w, bad_request (codes "malformed envelope"))
      | some (ok parsed) ↦
          some (answer (header_event_id json parsed) new_id (process_items met parsed.items none w))
    ]

    abbrev pub answer_one : World P.Value × Result Error Str → World P.Value × Response
    answer_one (w, ok event_id) = (w, accepted event_id)
    answer_one (w, err e) = (w, failed_response state.busy_retry_after e)

    -- `store` behind its preamble.
    unfoldable pub store_decoded : Met → Str → World P.Value → World P.Value × Response
    unfolding process_event failed_response
    store_decoded met body w = elim (P.from_slice body) [
      | none ↦ (w, bad_request (codes "malformed event payload"))
      | some payload ↦ answer_one (process_event P enrich project payload met w)
    ]

  module _ (state : State) (enrich : P.Value → P.Value) where
    -- `none` is a parser that is out of fuel.
    unfoldable pub envelope :
        Request
        → (ℕ → Met)
        → Str
        → RateLimiter
        → World P.Value
        → Option (RateLimiter × World P.Value × Response)
    unfolding authorize_and_decode envelope_decoded
    envelope request met new_id limiter w =
        let (limiter', gate) = authorize_and_decode state request limiter in
        elim gate [
          | err response ↦ some (limiter', w, response)
          | ok (project, body) ↦ elim (envelope_decoded state project enrich met new_id body w) [
            | none ↦ none
            | some (w', response) ↦ some (limiter', w', response)
          ]
        ]

    unfoldable pub store :
        Request → Met → RateLimiter → World P.Value → RateLimiter × World P.Value × Response
    unfolding authorize_and_decode store_decoded
    store request met limiter w =
        let (limiter', gate) = authorize_and_decode state request limiter in
        elim gate [
          | err response ↦ (limiter', w, response)
          | ok (project, body) ↦
              let (w', response) = store_decoded state project enrich met body w in
              (limiter', w', response)
        ]
