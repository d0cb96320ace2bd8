-- ===== src/Domain/MuteRule.antt =====
-- src/domain/mute_rule.rs, src/ingest/tags.rs: the tags of an event, and the rules that mute it. JSON
-- values belong to the library `serde_json` and are an interface here.
pub mod Tags
mod Tests
use soika.Base.{
  ℕ, Bool, true, false, ◌||◌, ◌&&◌, not, Option, none, some, List, [], ◌∷◌, all, any, is_empty,
  if◌then◌else◌,
}
use soika.Base.Text.{Str, codes, str_eq}
use soika.Base.Dict.{Dict, lookup, insert}
use soika.Issues.Types.{Uuid, Timestamp}

pub record TagMatch : Type 0 where
  pub key : Str
  pub value : Str

pub record TagMuteRule : Type 0 where
  pub id : Uuid
  pub project_id : Uuid
  pub name : Option Str
  pub tags : List TagMatch
  pub created_by : Option Uuid
  pub created_at : Timestamp
  pub updated_at : Timestamp

abbrev pub is_some_eq : Option Str → Str → Bool
is_some_eq none value = false
is_some_eq (some v) value = str_eq v value

unfoldable pub matches : TagMuteRule → Dict Str → Bool
matches rule event_tags =
    if is_empty rule.tags
    then false
    else all (λ t. is_some_eq (lookup t.key event_tags) t.value) rule.tags

-- What `event_tags` calls of a value. `scalar` is the text of a string, a number or a Boolean.
pub record TagJson (Value : Type 0) : Type 0 where
  pub get : Value → Str → Option Value
  pub as_object : Value → Option (List (Str × Value))
  pub as_array : Value → Option (List Value)
  pub scalar : Value → Option Str

unfoldable pub insert_pair : Str → Str → Dict Str → Dict Str
insert_pair key value out =
    if not (is_empty key) && not (is_empty value) then insert key value out else out

module _ {Value : Type 0} (json : TagJson Value) where
  abbrev scalar_str : Value → Str
  scalar_str v = elim (json.scalar v) [ none ↦ [] | some s ↦ s ]

  abbrev member_str : Value → Str → Str
  member_str entry key = elim (json.get entry key) [ none ↦ [] | some v ↦ scalar_str v ]

  -- The two loops, over the members of an object and over the entries of an array.
  unfoldable pub insert_members : List (Str × Value) → Dict Str → Dict Str
  unfolding insert_pair
  insert_members [] out = out
  insert_members ((key, value) ∷ members) out =
      insert_members members (insert_pair key (scalar_str value) out)

  abbrev pair_of : Option (List Value) → Option (Value × Value)
  pair_of (some (a ∷ (b ∷ []))) = some (a, b)
  pair_of _ = none

  unfoldable pub insert_entry : Value → Dict Str → Dict Str
  unfolding insert_pair
  insert_entry entry out = elim (pair_of (json.as_array entry)) [
    | some (a, b) ↦ insert_pair (scalar_str a) (scalar_str b) out
    | none ↦ elim (json.as_object entry) [
      | some members ↦
          insert_pair (member_str entry (codes "key")) (member_str entry (codes "value")) out
      | none ↦ out
    ]
  ]

  unfoldable pub insert_entries : List Value → Dict Str → Dict Str
  unfolding insert_entry
  insert_entries [] out = out
  insert_entries (entry ∷ entries) out = insert_entries entries (insert_entry entry out)

  unfoldable pub event_tags : Value → Dict Str
  unfolding insert_members insert_entries
  event_tags payload = elim (json.get payload (codes "tags")) [
    | none ↦ []
    | some tags ↦ elim (json.as_object tags) [
      | some members ↦ insert_members members []
      | none ↦ elim (json.as_array tags) [ some entries ↦ insert_entries entries [] | none ↦ [] ]
    ]
  ]
