-- ===== src/Domain/MuteRule/Tests.antt =====
-- A rule and an event with one tag, and the theorem at them.
use soika.Base.{
  ◌≡◌, refl, true, false, Option, none, some, List, [], ◌∷◌, all, is_empty, if◌then◌else◌,
}
use soika.Base.Text.{Str, codes, str_eq}
use soika.Base.Dict.{lookup, insert}
use soika.Domain.MuteRule.{TagMuteRule, matches, TagJson, insert_pair, insert_members, event_tags}
use soika.Domain.MuteRule.Tags.{is_full_match, matches-event_tags}

data Node : Type 0 where
  event tags staging missing : Node

abbrev member : Node → Str → Option Node
member event key = if str_eq key (codes "tags") then some tags else none
member _ key = none

abbrev entries_of : Node → Option (List (Str × Node))
entries_of tags = some ((codes "environment", staging) ∷ (codes "server", missing) ∷ [])
entries_of _ = none

abbrev text : Node → Option Str
text staging = some (codes "staging")
text _ = none

abbrev json : TagJson Node
json = record { get = member; as_object = entries_of; as_array = λ v. none; scalar = text }

abbrev rule : TagMuteRule
rule = record {
  id = 1;
  project_id = 2;
  name = none;
  tags = record { key = codes "environment"; value = codes "staging" } ∷ [];
  created_by = none;
  created_at = 3;
  updated_at = 3;
}

dropped : event_tags json event ≡ (codes "environment", codes "staging") ∷ []
unfolding event_tags insert_members insert_pair insert str_eq
dropped = refl

matched : matches rule (event_tags json event) ≡ true
unfolding matches event_tags insert_members insert_pair insert lookup str_eq
matched = refl

matches-event_tags_example :
    (is_empty rule.tags ≡ false) × (all (is_full_match json) rule.tags ≡ true)
matches-event_tags_example = matches-event_tags json rule event matched
