-- ===== src/Ingest/Handlers/Tests.antt =====
-- Requests to the two endpoints with one event, and the theorems at them.
use soika.Base.{
  ◌↔◌, arith, ◌≡◌, ◌⊎◌, refl, Bool, true, false, Option, none, some, [], ◌++◌, if◌then◌else◌,
}
use soika.Base.Int.{pos}
use soika.Base.Text.{Str, codes, str_eq}
use soika.Base.Time.{from_secs}
use soika.Base.Result.{ok, err}
use soika.Errors.{internal}
use soika.Issues.Store.{find_by_id, find_by_fingerprint}
use soika.Issues.Pipeline.{sound, IngestOutcome}
use soika.Issues.Pipeline.Sound.{Ingested}
use soika.Issues.Pipeline.Notices.{trips}
use soika.Access.Projects.{Project}
use soika.Ingest.RateLimit.{RateLimiter, new}
use soika.Ingest.Request.{Headers, Stream}
use soika.Ingest.Process.{Payload, Met, World, upsert_of, tag_json, process_event}
use soika.Domain.MuteRule.{event_tags}
use soika.Ingest.Process.Rules.{IsDue}
use soika.Ingest.Process.Stored.{at_most_one, IsIdOf, process_event-Ingested}
use soika.Ingest.Handlers.{Response, Request, State, envelope, store}
use soika.Ingest.Handlers.Gate.{IsAdmitted, store-IsAdmitted, envelope-IsAdmitted}
use soika.Ingest.Handlers.Answers.{NamesWait, envelope-NamesWait}

-- The values of an envelope with one event, its type, and the event.
data Node : Type 0 where
  head item kind event : Node

abbrev read : Str → Option Node
read bytes =
    if str_eq bytes (codes "H")
    then some head
    else if str_eq bytes (codes "I")
    then some item
    else if str_eq bytes (codes "E")
    then some event
    else none

abbrev member : Node → Str → Option Node
member item key = if str_eq key (codes "type") then some kind else none
member _ key = none

abbrev text : Node → Option Str
text kind = some (codes "event")
text _ = none

abbrev payloads : Payload
payloads = record {
  Value = Node;
  from_slice = read;
  get = member;
  as_u64 = λ v. none;
  as_str = text;
  as_array = λ v. none;
  as_object = λ v. none;
  as_bool = λ v. none;
  as_i64 = λ v. none;
  as_f64 = λ v. none;
  scalar = text;
  parse_int = λ s. none;
  show_int = λ n. codes "n";
}

abbrev project : Project
project = record {
  id = 1;
  short_id = codes "web001";
  team_id = 2;
  name = codes "web";
  slug = codes "web";
  dsn_public_key = codes "key";
  retention_events = pos 10;
  retention_days = pos 10;
  muted = false;
  webhook_url = none;
  created_at = 1;
  updated_at = 1;
  orphaned_at = none;
}

abbrev nothing_read : Stream
nothing_read = record { bytes = []; fails = true }

abbrev state : State
state = record {
  find_by_dsn = λ key. ok (some project);
  decoders = record { gzip = λ body. nothing_read; zlib = λ body. nothing_read };
  show_id = λ id. codes "p";
  busy_retry_after = 0;
}

abbrev headers : Headers
headers name = if str_eq name (codes "x-sentry-key") then some (codes "key") else none

abbrev request : Request
request = record { headers = headers; query = none; body = codes "H\nI\nE\n"; at = 5 }

abbrev met : Met
met = record {
  now = 7;
  new_event_id = codes "e1";
  generated = record { issue_id = 3; short_id = codes "iss001"; event_row = 4; clock = 7 };
  faults = sound;
  rules = err (internal []);
}

abbrev world : World Node
world = record { store = record { issues = []; events = [] }; spawned = [] }

abbrev limiter : RateLimiter
limiter = new 300 (from_secs 60)

abbrev same : Node → Node
same v = v

envelope-IsAdmitted_example :
    (r : RateLimiter × World Node × Response) × (envelope payloads state same request
        (λ n. met)
        (codes "e2")
        limiter
        world
      ≡ some r)
    × ((r.1 ≡ world) ⊎ IsAdmitted state request limiter)
envelope-IsAdmitted_example =
    envelope-IsAdmitted payloads state same request limiter world (λ n. met) (codes "e2")

store-IsAdmitted_example :
    ((store payloads state same request met limiter world).1 ≡ world)
    ⊎ IsAdmitted state request limiter
store-IsAdmitted_example = store-IsAdmitted payloads state same request limiter world met

envelope-NamesWait_example :
    NamesWait (store payloads state same request met limiter world).2
    × ((r : RateLimiter × World Node × Response)
        → envelope payloads state same request (λ n. met) (codes "e2") limiter world ≡ some r
        → NamesWait r.2)
envelope-NamesWait_example =
    envelope-NamesWait payloads state same request limiter world (λ n. met) (codes "e2")

process_event-Ingested_example :
    let u = upsert_of payloads 1 event 7 in
    let before = find_by_fingerprint u.project_id u.fingerprint world.store.issues in
    let (w', result) = process_event payloads same project event met world in
    (outcome : IngestOutcome Node) × (notified : Bool) × (id : Str) × IsIdOf payloads event
      (codes "e1")
      id
    × (result ≡ ok id)
    × Ingested u id event world.store before
        (trips before u.seen_at world.store.events)
        (w'.store, outcome)
    × (w'.spawned ≡ world.spawned ++ at_most_one notified (outcome.issue, outcome.notify))
    × ((notified ≡ true)
        ↔ IsDue outcome.notify project met.rules (event_tags (tag_json payloads) event))
process_event-Ingested_example =
    process_event-Ingested payloads same project event met world refl
      (record { ids = λ j. omega arith; keys = λ p f. omega arith }) (unfold find_by_id in refl)
