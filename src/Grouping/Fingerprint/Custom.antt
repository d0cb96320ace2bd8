-- ===== src/Grouping/Fingerprint/Custom.antt =====
-- src/grouping/fingerprint.rs: what a custom fingerprint is a hash of.
use soika.Base.{
  ◌≡◌, ◌⊎◌, ◌↔◌, refl, sym, ap, ◌∙◌, Bool, true, false, ◌||◌, List, [], ◌∷◌, all, map, is_empty,
  if◌then◌else◌, Bool-cases, inl, inr,
}
use soika.Base.Text.{Str, codes, str_eq, str_eq_iff, trim}
use soika.Base.Trim.{IsSpelled, trim_eq_iff}
use soika.Grouping.Stacktrace.{NormalizedEvent}
use soika.Grouping.Fingerprint.{
  join, hash_hex, unit_separator, default_material, default_fingerprint, is_placeholder, part_of,
  is_lone, custom_fingerprint, fingerprint_normalized,
}
use soika.Grouping.Fingerprint.Join.{has_no_separator, parts_of, parts_of-join}

-- The placeholder for the default, in either spelling, with or without white space around it.
abbrev pub IsDefault : Str → Type 0
IsDefault component =
    IsSpelled component (codes "{{ default }}") ⊎ IsSpelled component (codes "{{default}}")

either : (a b : Bool) {A B : Type 0} → (a ≡ true) ↔ A → (b ≡ true) ↔ B → ((a || b) ≡ true) ↔ (A ⊎ B)
either true b f g = (λ h. inl (f.0 refl), λ h. refl)
either false true f g = (λ h. inr (g.0 refl), λ h. refl)
either false false f g = (
  (λ h. cc),
  (λ h. elim h [
    | inl a ↦ let no : false ≡ true = f.1 a in cc
    | inr b ↦ let no : false ≡ true = g.1 b in cc
  ]),
)

is_placeholder_iff : (component : Str) → (is_placeholder component ≡ true) ↔ IsDefault component
unfolding is_placeholder
is_placeholder_iff component =
    either (str_eq (trim component) (codes "{{ default }}"))
      (str_eq (trim component) (codes "{{default}}"))
      (trim_eq_iff component (codes "{{ default }}") refl refl)
      (trim_eq_iff component (codes "{{default}}") refl refl)

-- A component stands for itself, unless it is the placeholder.
abbrev pub IsPart : Str → Str → Str → Type 0
IsPart material component part =
    (IsDefault component × (part ≡ material)) ⊎ (¬ IsDefault component × (part ≡ component))

abbrev pub AreParts : Str → List Str → List Str → Type 0
AreParts material [] [] = Unit {0}
AreParts material (c ∷ components) (p ∷ parts) =
    IsPart material c p × AreParts material components parts
AreParts material _ _ = ⊥

part_of-IsPart : (material component : Str) → IsPart material component (part_of material component)
unfolding part_of
part_of-IsPart material component = elim (Bool-cases (is_placeholder component)) [
  | inl placeholder ↦
      inl ((is_placeholder_iff component).0 placeholder, rw (part_of, placeholder) refl)
  | inr other ↦ inr (
    (λ d.
        let placeholder : is_placeholder component ≡ true = (is_placeholder_iff component).1 d in
        let no : true ≡ false = sym placeholder ∙ other in cc),
    rw (part_of, other) refl,
  )
]

map-AreParts :
    (material : Str) (components : List Str)
    → AreParts material components (map (part_of material) components)
map-AreParts material [] = tt
map-AreParts material (c ∷ components) =
    (part_of-IsPart material c, map-AreParts material components)

is_empty-map : (f : Str → Str) (l : List Str) → is_empty (map f l) ≡ is_empty l
is_empty-map f [] = refl
is_empty-map f (x ∷ l) = refl

-- The text that is hashed for a list of parts.
abbrev text_of : Str → List Str → Str
text_of material parts = if is_lone material parts then material else join unit_separator parts

text_of-join :
    (material : Str) (parts : List Str) → text_of material parts ≡ join unit_separator parts
unfolding join
text_of-join material [] = refl
text_of-join material (part ∷ []) = elim (Bool-cases (str_eq part material)) [
  | inl same ↦ rw same (sym ((str_eq_iff part material).0 same))
  | inr other ↦ rw other refl
]
text_of-join material (part ∷ (more ∷ parts)) = refl

hash_either :
    (b : Bool) (s t : Str) → (if b then hash_hex s else hash_hex t) ≡ hash_hex (if b then s else t)
hash_either true s t = refl
hash_either false s t = refl

custom_fingerprint-text :
    (event : NormalizedEvent)
    → is_empty event.fingerprint ≡ false
    → fingerprint_normalized event
      ≡ hash_hex (join unit_separator (map (part_of (default_material event)) event.fingerprint))
unfolding fingerprint_normalized custom_fingerprint
custom_fingerprint-text event custom =
    let material = default_material event in
    let parts = map (part_of material) event.fingerprint in
    let hashed : custom_fingerprint event ≡ hash_hex (text_of material parts) =
      hash_either (is_lone material parts) material (join unit_separator parts) in
    rw (fingerprint_normalized, custom) refl ∙ hashed ∙ ap hash_hex (text_of-join material parts)

-- The fingerprint of an event with a custom one is the hash of a text. There is a part for each
-- component, the component itself, or the default text if it is the placeholder. If no part holds the
-- separator 0x1f, then the text, split at it, gives back just these parts.
pub fingerprint_normalized-parts_of :
    (event : NormalizedEvent)
    → is_empty event.fingerprint ≡ false
    → (text : Str) × (parts : List Str) × (fingerprint_normalized event ≡ hash_hex text)
      × AreParts (default_material event) event.fingerprint parts
      × (all has_no_separator parts ≡ true → parts_of text ≡ parts)
fingerprint_normalized-parts_of event custom =
    let parts = map (part_of (default_material event)) event.fingerprint in
    (
      join unit_separator parts,
      parts,
      custom_fingerprint-text event custom,
      map-AreParts (default_material event) event.fingerprint,
      (λ free.
          parts_of-join parts free
            (is_empty-map (part_of (default_material event)) event.fingerprint ∙ custom)),
    )

-- A custom fingerprint of one component is the default fingerprint if that is the placeholder, in
-- either spelling, with white space around it or not. Otherwise it is the hash of the component.
pub fingerprint_normalized-IsDefault :
    (event : NormalizedEvent) (component : Str)
    → event.fingerprint ≡ component ∷ []
    → (IsDefault component × (fingerprint_normalized event ≡ default_fingerprint event))
      ⊎ (¬ IsDefault component × (fingerprint_normalized event ≡ hash_hex component))
unfolding default_fingerprint join
fingerprint_normalized-IsDefault event component lone =
    let material = default_material event in
    let text : fingerprint_normalized event
        ≡ hash_hex (join unit_separator (map (part_of material) (component ∷ []))) =
      custom_fingerprint-text event (ap is_empty lone)
      ∙ ap (λ l. hash_hex (join unit_separator (map (part_of material) l))) lone in
    elim (part_of-IsPart material component) [
      | inl (d, e) ↦ inl (d, text ∙ ap hash_hex e)
      | inr (d, e) ↦ inr (d, text ∙ ap hash_hex e)
    ]
