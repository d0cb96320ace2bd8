-- ===== src/Ingest/Handlers/Answers.antt =====
-- src/ingest/handlers.rs: the answers that ask a client to wait.
use soika.Base.{
  ℕ, suc, ◌≡◌, ◌≢◌, ◌≤◌, ◌-◌, leb, refl, arith, subst, not, Option, none, some, List, [], ◌∷◌, max,
  if◌then◌else◌, Bool-cases, Option-cases, inl, inr,
}
use soika.Base.Text.{Str, codes}
use soika.Base.Dict.{lookup}
use soika.Base.Time.{Duration, as_secs}
use soika.Base.Result.{Result, ok, err, Result-cases}
use soika.Errors.{Error, is_busy}
use soika.Issues.Types.{Timestamp}
use soika.Access.Projects.{Project}
use soika.Ingest.RateLimit.{
  RateLimiter, Decision, allow, limited, check_at, spend, roll, Window, window_or,
}
use soika.Ingest.Envelope.{EnvelopeItem, parse, header_event_id, payload_json}
use soika.Ingest.Request.{DecodeError, corrupt, too_large, extract_dsn_key, decode_body}
use soika.Ingest.Process.{Payload, Met, World, process_event}
use soika.Ingest.Handlers.{
  Response, refusal, Request, State, is_none, failed_response, decoded, limit_and_decode, admit,
  authorize_and_decode, json, first_of, answer, answer_one, is_ingestible_event, process_items,
  envelope_decoded, store_decoded, envelope, store,
}

-- An answer names a wait just when its status is 429, and the wait is a second at least.
abbrev pub WaitNamed : ℕ → Option ℕ → Type 0
WaitNamed status none = status ≢ 429
WaitNamed status (some n) = (status ≡ 429) × (1 ≤ n)

abbrev pub NamesWait : Response → Type 0
NamesWait r = WaitNamed r.status r.retry_after

abbrev Refuses : {A : Type 0} → Result Response A → Type 0
Refuses (ok a) = Unit {0}
Refuses (err r) = NamesWait r

abbrev HasWait : Decision → Type 0
HasWait allow = Unit {0}
HasWait (limited n) = 1 ≤ n

at_least_one : (n : ℕ) → 1 ≤ max n 1
at_least_one n = omega arith

spend-HasWait : (limit window now : ℕ) (entry : Window) → HasWait (spend limit window now entry).1
unfolding spend
spend-HasWait limit window now entry = elim (Bool-cases (leb limit entry.count)) [
  | inl b ↦ rw (b, HasWait) (at_least_one (as_secs (window - (now - entry.window_start))))
  | inr b ↦ rw (b, HasWait) tt
]

check_at-HasWait : (rl : RateLimiter) (key : Str) (now : ℕ) → HasWait (check_at rl key now).1
unfolding check_at
check_at-HasWait rl key now = spend-HasWait rl.limit rl.window now (
    roll rl.window now (window_or (lookup key rl.state) (record { window_start = now; count = 0 })))

failed_response-NamesWait : (wait : Duration) (e : Error) → NamesWait (failed_response wait e)
unfolding failed_response
failed_response-NamesWait wait e = elim (Bool-cases (is_busy e)) [
  | inl b ↦ rw (b, failed_response) (refl, omega arith)
  | inr b ↦ rw (b, failed_response) (ground arith)
]

decoded-Refuses :
    (project : Project) (result : Result DecodeError Str) → Refuses (decoded project result)
unfolding decoded
decoded-Refuses project (ok body) = tt
decoded-Refuses project (err too_large) = ground arith
decoded-Refuses project (err corrupt) = ground arith

limit_and_decode-Refuses :
    (state : State) (request : Request) (project : Project) (d : Decision)
    → HasWait d
    → Refuses (limit_and_decode state request project d)
unfolding limit_and_decode
limit_and_decode-Refuses state request project (limited n) h = (refl, h)
limit_and_decode-Refuses state request project allow h =
    decoded-Refuses project (decode_body state.decoders request.headers request.body)

unless_orphaned-Refuses :
    (orphaned_at : Option Timestamp) (r : Result Response (Project × Str))
    → Refuses r
    → Refuses
        (if not (is_none orphaned_at) then err (refusal 403 (codes "project is read-only")) else r)
unless_orphaned-Refuses none r h = h
unless_orphaned-Refuses (some t) r h = ground arith

gate-Refuses :
    (state : State) (request : Request) (limiter : RateLimiter)
    → Refuses (authorize_and_decode state request limiter).1
unfolding authorize_and_decode admit
gate-Refuses state request limiter =
    elim (Option-cases (extract_dsn_key request.headers request.query)) [
      | inl e ↦ rw (e, Refuses) (ground arith)
      | inr (dsn_key, e) ↦ elim (Result-cases (state.find_by_dsn dsn_key)) [
        | inl (x, f) ↦ rw (e, f, Refuses) (ground arith)
        | inr (none, f) ↦ rw (e, f, Refuses) (ground arith)
        | inr (some project, f) ↦
            let key = state.show_id project.id in
            let decision = (check_at limiter key request.at).1 in
            rw (e, f, Refuses)
              (unless_orphaned-Refuses project.orphaned_at
                (limit_and_decode state request project decision)
                (limit_and_decode-Refuses state request project decision
                  (check_at-HasWait limiter key request.at)))
      ]
    ]

module _ (P : Payload) (state : State) (project : Project) (enrich : P.Value → P.Value) where
  process_items-Refuses :
      (met : ℕ → Met) (items : List (EnvelopeItem (json P))) (accepted_event_id : Option Str)
      (w : World P.Value)
      → Refuses (process_items P state project enrich met items accepted_event_id w).1
  unfolding process_items
  process_items-Refuses met [] accepted_event_id w = tt
  process_items-Refuses met (item ∷ items) accepted_event_id w =
      elim (Bool-cases (is_ingestible_event P item)) [
        | inr other ↦ rw (other, Refuses) (process_items-Refuses met items accepted_event_id w)
        | inl taken ↦ elim (Result-cases (payload_json (json P) item)) [
          | inl (x, e) ↦
              rw (taken, e, Refuses) (process_items-Refuses met items accepted_event_id w)
          | inr (payload, e) ↦
              let next = process_event P enrich project payload (met 0) w in
              elim (Result-cases next.1) [
                | inl (x, f) ↦
                    rw (taken, e, f, Refuses) (failed_response-NamesWait state.busy_retry_after x)
                | inr (id, f) ↦
                    rw (taken, e, f, Refuses)
                      (process_items-Refuses (λ n. met (suc n)) items
                        (first_of P accepted_event_id id) next.0)
              ]
        ]
      ]

  answer-NamesWait :
      (header_id : Option Str) (new_id : Str) (w : World P.Value) (r : Result Response (Option Str))
      → Refuses r
      → NamesWait (answer P state project enrich header_id new_id (w, r)).1
  answer-NamesWait header_id new_id w (ok id) h = ground arith
  answer-NamesWait header_id new_id w (err r) h = h

  answer_one-NamesWait :
      (w : World P.Value) (r : Result Error Str)
      → NamesWait (answer_one P state project enrich (w, r)).1
  answer_one-NamesWait w (ok id) = ground arith
  answer_one-NamesWait w (err e) = failed_response-NamesWait state.busy_retry_after e

  store_decoded-NamesWait :
      (met : Met) (body : Str) (w : World P.Value)
      → NamesWait (store_decoded P state project enrich met body w).1
  unfolding store_decoded
  store_decoded-NamesWait met body w = elim (Option-cases (P.from_slice body)) [
    | inl f ↦ rw (f, store_decoded, NamesWait) (ground arith)
    | inr (payload, f) ↦
        let next = process_event P enrich project payload met w in
        rw (f, store_decoded, NamesWait) (answer_one-NamesWait next.0 next.1)
  ]

  -- What holds of an answer, where there is one.
  abbrev Answered : Option (World P.Value × Response) → Type 0
  Answered none = Unit {0}
  Answered (some r) = NamesWait r.1

  envelope_decoded-Answered :
      (met : ℕ → Met) (new_id body : Str) (w : World P.Value)
      → Answered (envelope_decoded P state project enrich met new_id body w)
  unfolding envelope_decoded
  envelope_decoded-Answered met new_id body w = elim (Option-cases (parse (json P) body)) [
    | inl e ↦ rw (e, Answered) tt
    | inr (err x, e) ↦ rw (e, Answered) (ground arith)
    | inr (ok parsed, e) ↦
        let items = process_items P state project enrich met parsed.items none w in
        rw (e, Answered)
          (answer-NamesWait (header_event_id (json P) parsed) new_id items.0 items.1
            (process_items-Refuses met parsed.items none w))
  ]

module _ (P : Payload) (state : State) (enrich : P.Value → P.Value) (request : Request)
    (limiter : RateLimiter) (w : World P.Value) where
  store-NamesWait : (met : Met) → NamesWait (store P state enrich request met limiter w).2
  unfolding store
  store-NamesWait met = elim (Result-cases (authorize_and_decode state request limiter).1) [
    | inl (response, e) ↦
        rw (e, store, NamesWait) (subst Refuses e (gate-Refuses state request limiter))
    | inr ((project, body), e) ↦
        rw (e, store, NamesWait) (store_decoded-NamesWait P state project enrich met body w)
  ]

  abbrev AllAnswered : Option (RateLimiter × World P.Value × Response) → Type 0
  AllAnswered none = Unit {0}
  AllAnswered (some r) = NamesWait r.2

  envelope-AllAnswered :
      (met : ℕ → Met) (new_id : Str)
      → AllAnswered (envelope P state enrich request met new_id limiter w)
  unfolding envelope
  envelope-AllAnswered met new_id =
      elim (Result-cases (authorize_and_decode state request limiter).1) [
        | inl (response, e) ↦
            rw (e, envelope, AllAnswered) (subst Refuses e (gate-Refuses state request limiter))
        | inr ((project, body), e) ↦
            let known = envelope_decoded-Answered P state project enrich met new_id body w in
            elim (Option-cases (envelope_decoded P state project enrich met new_id body w)) [
              | inl f ↦ rw (e, envelope, f, AllAnswered) tt
              | inr (q, f) ↦
                  rw (e, envelope, f, AllAnswered) (subst (Answered P state project enrich) f known)
            ]
      ]

  -- On both endpoints, an answer names a wait just when its status is 429, and the wait it names is a
  -- second at least.
  pub envelope-NamesWait :
      (mets : ℕ → Met) (new_id : Str)
      → NamesWait (store P state enrich request (mets 0) limiter w).2
        × ((r : RateLimiter × World P.Value × Response)
            → envelope P state enrich request mets new_id limiter w ≡ some r
            → NamesWait r.2)
  envelope-NamesWait mets new_id =
      (store-NamesWait (mets 0), λ r h. subst AllAnswered h (envelope-AllAnswered mets new_id))
