-- ===== src/Notifications/Lifecycle/Maps.antt =====
-- Equality of maps and of alert identities is an equivalence.
use soika.Base.{
  ◌≡◌, refl, sym, ◌∙◌, arith, ◌↔◌, Bool, true, Option, none, some, [], ◌∷◌, all, Bool-cases,
  Option-cases, inl, inr, &&_true,
}
use soika.Base.Text.{Str, str_eq, str_eq_iff}
use soika.Base.Dict.{Dict, lookup}
use soika.Notifications.Lifecycle.{value_eq, agrees_on, same_map, same_identity, Identity}

value_eq_iff : (s t : Option Str) → (value_eq s t ≡ true) ↔ (s ≡ t)
value_eq_iff none none = ground arith
value_eq_iff none (some t) = ground arith
value_eq_iff (some s) none = ground arith
value_eq_iff (some s) (some t) = ground (arith, str_eq_iff s t)

all-lookup :
    (p : Str × Str → Bool) (m : Dict Str) {key value : Str}
    → all p m ≡ true
    → lookup key m ≡ some value
    → p (key, value) ≡ true
unfolding lookup
all-lookup p [] h e = cc
all-lookup p ((k, v) ∷ m) {key} {value} h e =
    let (here, there) = &&_true (p (k, v)) (all p m) h in
    elim (Bool-cases (str_eq k key)) [
      | inl hit ↦
          let found : some v ≡ some value = rw (sym e, lookup, hit) refl in
          let same_key : k ≡ key = (str_eq_iff k key).0 hit in
          let same_value : v ≡ value = ground (arith, found) in cc
      | inr miss ↦ all-lookup p m there (rw (sym e, lookup, miss) refl)
    ]

all-agrees :
    (a b m : Dict Str) → ((key : Str) → lookup key a ≡ lookup key b) → all (agrees_on a b) m ≡ true
all-agrees a b [] h = refl
all-agrees a b ((k, v) ∷ m) h =
    rw ((value_eq_iff (lookup k a) (lookup k b)).1 (h k)) (all-agrees a b m h)

pub same_map→ : (a b : Dict Str) → same_map a b ≡ true → (key : Str) → lookup key a ≡ lookup key b
unfolding same_map
same_map→ a b h key =
    let (forth, back) = &&_true (all (agrees_on a b) a) (all (agrees_on a b) b) h in
    elim (Option-cases (lookup key a)) [
      | inr (v, e) ↦
          (value_eq_iff (lookup key a) (lookup key b)).0 (all-lookup (agrees_on a b) a forth e)
      | inl e ↦ elim (Option-cases (lookup key b)) [
        | inl f ↦ e ∙ sym f
        | inr (v, f) ↦
            (value_eq_iff (lookup key a) (lookup key b)).0 (all-lookup (agrees_on a b) b back f)
      ]
    ]

pub →same_map : (a b : Dict Str) → ((key : Str) → lookup key a ≡ lookup key b) → same_map a b ≡ true
unfolding same_map
→same_map a b h = rw (all-agrees a b a h, all-agrees a b b h) refl

pub same_identity_refl : (i : Identity) → same_identity i i ≡ true
unfolding same_identity
same_identity_refl i =
    rw ((str_eq_iff i.endpoint i.endpoint).1 refl) (→same_map i.labels i.labels (λ key. refl))

both_or_neither : (a b : Bool) → (a ≡ true → b ≡ true) → (b ≡ true → a ≡ true) → a ≡ b
both_or_neither a b f g = ground arith

pub same_identity_iff :
    (i j : Identity)
    → (same_identity i j ≡ true)
      ↔ ((i.endpoint ≡ j.endpoint) × ((key : Str) → lookup key i.labels ≡ lookup key j.labels))
unfolding same_identity
same_identity_iff i j = (
  λ h.
      let (there, alike) = &&_true (str_eq i.endpoint j.endpoint) (same_map i.labels j.labels) h in
      ((str_eq_iff i.endpoint j.endpoint).0 there, same_map→ i.labels j.labels alike),
  λ (there, alike).
      rw ((str_eq_iff i.endpoint j.endpoint).1 there) (→same_map i.labels j.labels alike),
)

-- Two alerts that are the same are alike to every third.
pub same_identity_cong :
    (i j k : Identity) → same_identity i j ≡ true → same_identity i k ≡ same_identity j k
same_identity_cong i j k h =
    let (there, alike) = (same_identity_iff i j).0 h in
    both_or_neither (same_identity i k) (same_identity j k)
      (λ e.
        let (a, b) = (same_identity_iff i k).0 e in
        (same_identity_iff j k).1 (sym there ∙ a, λ key. sym (alike key) ∙ b key))
      (λ e.
        let (a, b) = (same_identity_iff j k).0 e in
        (same_identity_iff i k).1 (there ∙ a, λ key. alike key ∙ b key))

pub same_identity_sym : (i j : Identity) → same_identity i j ≡ true → same_identity j i ≡ true
same_identity_sym i j h = sym (same_identity_cong i j i h) ∙ same_identity_refl i
