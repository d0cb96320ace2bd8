-- ===== src/Ingest/Handlers/Gate.antt =====
-- src/ingest/handlers.rs: which requests come to touch the tables.
use soika.Base.{
  ℕ, ◌≡◌, ◌⊎◌, refl, subst, not, Option, none, some, if◌then◌else◌, Option-cases, inl, inr,
}
use soika.Base.Text.{Str, codes}
use soika.Base.Result.{Result, ok, err, Result-cases, Ok}
use soika.Issues.Types.{Timestamp}
use soika.Access.Projects.{Project}
use soika.Ingest.RateLimit.{RateLimiter, Decision, allow, limited, check_at}
use soika.Ingest.Envelope.{header_event_id}
use soika.Ingest.Envelope.Total.{parse-total}
use soika.Ingest.Request.{DecodeError, corrupt, too_large, extract_dsn_key, decode_body}
use soika.Ingest.Process.{Payload, Met, World}
use soika.Ingest.Handlers.{
  Response, refusal, Request, State, is_none, decoded, limit_and_decode, admit,
  authorize_and_decode, json, answer, bad_request, process_items, envelope_decoded, envelope, store,
}

module _ (state : State) (request : Request) (limiter : RateLimiter) where
  -- The request names a key, the key is a project's, the project takes events, its budget has room,
  -- and the body can be decoded.
  pub record IsAdmitted : Type 0 where
    pub dsn_key : Str
    pub project : Project
    pub body : Str
    pub named : extract_dsn_key request.headers request.query ≡ some dsn_key
    pub known : state.find_by_dsn dsn_key ≡ ok (some project)
    pub open_to_events : project.orphaned_at ≡ none
    pub within_budget : (check_at limiter (state.show_id project.id) request.at).1 ≡ allow
    pub readable : decode_body state.decoders request.headers request.body ≡ ok body

  decoded-Ok :
      (Q : Str → Type 0) (project : Project) (result : Result DecodeError Str)
      → ((body : Str) → result ≡ ok body → Q body)
      → Ok (λ p. Q p.1) (decoded project result)
  unfolding decoded
  decoded-Ok Q project (ok body) h = h body refl
  decoded-Ok Q project (err too_large) h = tt
  decoded-Ok Q project (err corrupt) h = tt

  limit_and_decode-Ok :
      (Q : Str → Type 0) (project : Project) (d : Decision)
      → ((body : Str)
          → d ≡ allow
          → decode_body state.decoders request.headers request.body ≡ ok body
          → Q body)
      → Ok (λ p. Q p.1) (limit_and_decode state request project d)
  unfolding limit_and_decode
  limit_and_decode-Ok Q project (limited n) h = tt
  limit_and_decode-Ok Q project allow h =
      decoded-Ok Q project (decode_body state.decoders request.headers request.body)
        (λ body e. h body refl e)

  unless_orphaned-Ok :
      (Q : Str → Type 0) (orphaned_at : Option Timestamp) (e : Response)
      (r : Result Response (Project × Str))
      → (orphaned_at ≡ none → Ok (λ p. Q p.1) r)
      → Ok (λ p. Q p.1) (if not (is_none orphaned_at) then err e else r)
  unless_orphaned-Ok Q none e r h = h refl
  unless_orphaned-Ok Q (some t) e r h = tt

  gate-Ok : Ok (λ p. IsAdmitted) (authorize_and_decode state request limiter).1
  unfolding authorize_and_decode admit
  gate-Ok = elim (Option-cases (extract_dsn_key request.headers request.query)) [
    | inl e ↦ rw (e, Ok) tt
    | inr (dsn_key, e) ↦ elim (Result-cases (state.find_by_dsn dsn_key)) [
      | inl (x, f) ↦ rw (e, f, Ok) tt
      | inr (none, f) ↦ rw (e, f, Ok) tt
      | inr (some project, f) ↦
          let decision = (check_at limiter (state.show_id project.id) request.at).1 in
          rw (e, f, Ok)
            (unless_orphaned-Ok (λ body. IsAdmitted) project.orphaned_at
              (refusal 403 (codes "project is read-only"))
              (limit_and_decode state request project decision)
              (λ live.
                limit_and_decode-Ok (λ body. IsAdmitted) project decision
                  (λ body within readable. record {
                    dsn_key = dsn_key;
                    project = project;
                    body = body;
                    named = e;
                    known = f;
                    open_to_events = live;
                    within_budget = within;
                    readable = readable;
                  })))
    ]
  ]

module _ (P : Payload) (state : State) (enrich : P.Value → P.Value) (request : Request)
    (limiter : RateLimiter) (w : World P.Value) where
  -- Every answer of `store` leaves the tables and the notifications as they were, unless the request
  -- is admitted.
  pub store-IsAdmitted :
      (met : Met)
      → ((store P state enrich request met limiter w).1 ≡ w) ⊎ IsAdmitted state request limiter
  unfolding store
  store-IsAdmitted met = elim (Result-cases (authorize_and_decode state request limiter).1) [
    | inl (response, e) ↦ inl (rw (e, store) refl)
    | inr (p, e) ↦
        inr (subst (Ok (λ p. IsAdmitted state request limiter)) e (gate-Ok state request limiter))
  ]

  envelope_decoded_total :
      (project : Project) (met : ℕ → Met) (new_id body : Str)
      → (q : World P.Value × Response) × (envelope_decoded P state project enrich met new_id body w
          ≡ some q)
  unfolding envelope_decoded
  envelope_decoded_total project met new_id body =
      let (r, ends, bounded) = parse-total (json P) body in
      elim (Result-cases r) [
        | inl (x, e) ↦
            ((w, bad_request (codes "malformed envelope")), rw (ends, e, envelope_decoded) refl)
        | inr (parsed, e) ↦ (
          answer P state project enrich (header_event_id (json P) parsed) new_id
              (process_items P state project enrich met parsed.items none w),
          rw (ends, e, envelope_decoded) refl,
        )
      ]

  -- Every call of `envelope` ends with an answer, and leaves the tables and the notifications as they
  -- were, unless the request names the key of a project that is not read-only, is within the
  -- project's budget, and has a body that can be decoded.
  pub envelope-IsAdmitted :
      (met : ℕ → Met) (new_id : Str)
      → (r : RateLimiter × World P.Value × Response) × (envelope P state enrich request met new_id
            limiter w
          ≡ some r)
        × ((r.1 ≡ w) ⊎ IsAdmitted state request limiter)
  unfolding envelope
  envelope-IsAdmitted met new_id =
      elim (Result-cases (authorize_and_decode state request limiter).1) [
        | inl (response, e) ↦ (
          ((authorize_and_decode state request limiter).0, w, response),
          rw (e, envelope) refl,
          inl refl,
        )
        | inr ((project, body), e) ↦
            let (q, ends) = envelope_decoded_total project met new_id body in
            (
              ((authorize_and_decode state request limiter).0, q.0, q.1),
              rw (e, envelope, ends) refl,
              inr (
                  subst (Ok (λ p. IsAdmitted state request limiter)) e
                    (gate-Ok state request limiter)),
            )
      ]
