-- ===== src/Domain/MuteRule/Tags.antt =====
-- src/domain/mute_rule.rs, src/ingest/tags.rs: which rules can mute an event.
use soika.Base.{
  ◌≡◌, refl, sym, ap, ◌∙◌, arith, Bool, true, false, ◌&&◌, not, Option, none, some, List, [], ◌∷◌,
  all, is_empty, if◌then◌else◌, &&_true, Bool-cases, Option-cases, inl, inr,
}
use soika.Base.Text.{Str, codes, str_eq, str_eq_iff}
use soika.Base.Dict.{Dict, lookup, insert, lookup-insert}
use soika.Domain.MuteRule.{
  TagMatch, TagMuteRule, is_some_eq, matches, TagJson, insert_pair, scalar_str, member_str, pair_of,
  insert_members, insert_entry, insert_entries, event_tags,
}

abbrev pub is_full : Str → Str → Bool
is_full key value = not (is_empty key) && not (is_empty value)

-- No tag has an empty key or value.
abbrev IsFull : Dict Str → Type 0
IsFull tags = (key value : Str) → lookup key tags ≡ some value → is_full key value ≡ true

insert-IsFull :
    (k v : Str) (tags : Dict Str) → is_full k v ≡ true → IsFull tags → IsFull (insert k v tags)
insert-IsFull k v tags full h key value e =
    let chosen = sym (lookup-insert k key v tags) ∙ e in
    elim (Bool-cases (str_eq k key)) [
      | inl here ↦
          let found : some v ≡ some value =
            ap (λ b. if b then some v else lookup key tags) (sym here) ∙ chosen in
          let same_value : v ≡ value = ground (arith, found) in
          let same_key : k ≡ key = (str_eq_iff k key).0 here in cc
      | inr there ↦
          h key value (ap (λ b. if b then some v else lookup key tags) (sym there) ∙ chosen)
    ]

insert_pair-IsFull : (k v : Str) (tags : Dict Str) → IsFull tags → IsFull (insert_pair k v tags)
unfolding insert_pair
insert_pair-IsFull k v tags h = elim (Bool-cases (is_full k v)) [
  | inl full ↦ rw (full, IsFull) (insert-IsFull k v tags full h)
  | inr empty ↦ rw (empty, IsFull) h
]

module _ {Value : Type 0} (json : TagJson Value) where
  insert_members-IsFull :
      (members : List (Str × Value)) (out : Dict Str)
      → IsFull out
      → IsFull (insert_members json members out)
  unfolding insert_members
  insert_members-IsFull [] out h = h
  insert_members-IsFull ((k, v) ∷ members) out h =
      insert_members-IsFull members (insert_pair k (scalar_str json v) out)
        (insert_pair-IsFull k (scalar_str json v) out h)

  insert_entry-IsFull :
      (entry : Value) (out : Dict Str) → IsFull out → IsFull (insert_entry json entry out)
  unfolding insert_entry
  insert_entry-IsFull entry out h = elim (Option-cases (pair_of json (json.as_array entry))) [
    | inr ((a, b), e) ↦
        rw (e, insert_entry, IsFull)
          (insert_pair-IsFull (scalar_str json a) (scalar_str json b) out h)
    | inl e ↦ elim (Option-cases (json.as_object entry)) [
      | inl f ↦ rw (e, insert_entry, f, IsFull) h
      | inr (members, f) ↦
          rw (e, insert_entry, f, IsFull)
            (insert_pair-IsFull (member_str json entry (codes "key"))
              (member_str json entry (codes "value")) out h)
    ]
  ]

  insert_entries-IsFull :
      (entries : List Value) (out : Dict Str)
      → IsFull out
      → IsFull (insert_entries json entries out)
  unfolding insert_entries
  insert_entries-IsFull [] out h = h
  insert_entries-IsFull (entry ∷ entries) out h =
      insert_entries-IsFull entries (insert_entry json entry out) (insert_entry-IsFull entry out h)

  empty-IsFull : IsFull []
  unfolding lookup
  empty-IsFull key value e = cc

  event_tags-IsFull : (payload : Value) → IsFull (event_tags json payload)
  unfolding event_tags
  event_tags-IsFull payload = elim (Option-cases (json.get payload (codes "tags"))) [
    | inl e ↦ rw (e, event_tags, IsFull) empty-IsFull
    | inr (tags, e) ↦ elim (Option-cases (json.as_object tags)) [
      | inr (members, f) ↦
          rw (e, event_tags, f, IsFull) (insert_members-IsFull members [] empty-IsFull)
      | inl f ↦ elim (Option-cases (json.as_array tags)) [
        | inl g ↦ rw (e, event_tags, f, g, IsFull) empty-IsFull
        | inr (entries, g) ↦
            rw (e, event_tags, f, g, IsFull) (insert_entries-IsFull entries [] empty-IsFull)
      ]
    ]
  ]

  abbrev pub is_full_match : TagMatch → Bool
  is_full_match t = is_full t.key t.value

  is_some_eq-lookup : (o : Option Str) (value : Str) → is_some_eq o value ≡ true → o ≡ some value
  is_some_eq-lookup none value h = cc
  is_some_eq-lookup (some v) value h = ap some ((str_eq_iff v value).0 h)

  pairs_full :
      (pairs : List TagMatch) (tags : Dict Str)
      → IsFull tags
      → all (λ t. is_some_eq (lookup t.key tags) t.value) pairs ≡ true
      → all is_full_match pairs ≡ true
  pairs_full [] tags full h = refl
  pairs_full (t ∷ pairs) tags full h =
      let (here, there) =
        &&_true (is_some_eq (lookup t.key tags) t.value)
          (all (λ t. is_some_eq (lookup t.key tags) t.value) pairs) h in
      rw
        (
          full t.key t.value (is_some_eq-lookup (lookup t.key tags) t.value here),
          pairs_full pairs tags full there,
        )
        refl

  -- A rule that mutes an event has a pair, and none of its pairs has an empty key or an empty value.
  pub matches-event_tags :
      (rule : TagMuteRule) (payload : Value)
      → matches rule (event_tags json payload) ≡ true
      → (is_empty rule.tags ≡ false) × (all is_full_match rule.tags ≡ true)
  unfolding matches
  matches-event_tags rule payload h = elim (Bool-cases (is_empty rule.tags)) [
    | inl none_left ↦
        let no : false ≡ true = ap (λ b. if b then false else paired) (sym none_left) ∙ h in cc
    | inr some_left ↦ (
      some_left,
      pairs_full rule.tags (event_tags json payload) (event_tags-IsFull payload)
          (ap (λ b. if b then false else paired) (sym some_left) ∙ h),
    )
  ]
    where
      paired : Bool
      paired = all (λ t. is_some_eq (lookup t.key (event_tags json payload)) t.value) rule.tags
