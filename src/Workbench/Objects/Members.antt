-- ===== src/Workbench/Objects/Members.antt =====
-- Members of objects that are set and read, in cmd/web/geo-workbench.js.
use osmmini.Base.{
  ◌≡◌, refl, ap, ◌∙◌, inl, inr, false, Option, none, some, List, map, [], ◌∷◌, Text, codes, text_eq,
  text_eq_refl, text_eq_iff, Bool-cases,
}
use osmmini.Json.{
  Value, Items, nil, cons, null, boolean, number, string, array, object, Fields, field, lookup,
  items, to_items, end, property,
}
use osmmini.Json.Numbers.{finite}
use osmmini.Workbench.Objects.{
  clone, clone_items, clone_fields, set_member, set_field, features, with_features, properties,
  list_of, members_of,
}

pub lookup-set_member : (k : Text) (v : Value) (fs : Fields) → lookup k (set_member k v fs) ≡ some v
unfolding set_member
lookup-set_member k v end = rw (text_eq_refl k) refl
lookup-set_member k v (property j w r) = elim (Bool-cases (text_eq j k)) [
  | inl e ↦ rw (e, e) refl
  | inr e ↦ rw (e, e) (lookup-set_member k v r)
]

pub lookup-set_member_other :
    (j k : Text) (v : Value) (fs : Fields)
    → text_eq k j ≡ false
    → lookup j (set_member k v fs) ≡ lookup j fs
unfolding set_member
lookup-set_member_other j k v end h = rw h refl
lookup-set_member_other j k v (property i w r) h = elim (Bool-cases (text_eq i k)) [
  | inl e ↦
      let same = (text_eq_iff i k).0 e in
      let other : text_eq i j ≡ false = ap (λ x. text_eq x j) same ∙ h in rw (e, other) refl
  | inr e ↦ elim (Bool-cases (text_eq i j)) [
    | inl q ↦ rw (e, q) refl
    | inr q ↦ rw (e, q) (lookup-set_member_other j k v r h)
  ]
]

pub items-to_items : (vs : List Value) → items (to_items vs) ≡ vs
items-to_items [] = refl
items-to_items (v ∷ vs) = ap (λ r. v ∷ r) (items-to_items vs)

-- What has a member that is there is an object.
unfoldable pub IsObject : Value → Type 0
IsObject v = (fs : Fields) × (v ≡ object fs)

pub IsObject-field : (k : Text) (v w : Value) → field k v ≡ some w → IsObject v
unfolding IsObject
IsObject-field k (object fs) w h = (fs, refl)
IsObject-field k null w h = cc
IsObject-field k (boolean b) w h = cc
IsObject-field k (number n) w h = cc
IsObject-field k (string s) w h = cc
IsObject-field k (array vs) w h = cc

pub features-with_features :
    (fs : List Value) (v : Value) → IsObject v → features (with_features fs v) ≡ fs
unfolding features with_features IsObject
features-with_features fs v (ms, e) =
    ap
      (λ x.
        list_of (field (codes "features") (set_field (codes "features") (array (to_items fs)) x)))
      e
    ∙ ap list_of (lookup-set_member (codes "features") (array (to_items fs)) ms)
    ∙ items-to_items fs

pub properties-set_field :
    (new : Fields) (v : Value)
    → IsObject v
    → properties (set_field (codes "properties") (object new) v) ≡ new
unfolding properties IsObject
properties-set_field new v (ms, e) =
    ap
      (λ x. members_of (field (codes "properties") (set_field (codes "properties") (object new) x)))
      e
    ∙ ap members_of (lookup-set_member (codes "properties") (object new) ms)

-- A member that may be missing, as `clone` leaves it.
unfoldable pub cloned : Option Value → Option Value
unfolding clone
cloned none = none
cloned (some v) = some (clone v)

pub lookup-clone_fields :
    (k : Text) (fs : Fields) → lookup k (clone_fields fs) ≡ cloned (lookup k fs)
unfolding clone cloned
lookup-clone_fields k end = refl
lookup-clone_fields k (property j v fs) = elim (Bool-cases (text_eq j k)) [
  | inl e ↦ rw e refl
  | inr e ↦ rw e (lookup-clone_fields k fs)
]

pub items-clone_items : (vs : Items) → items (clone_items vs) ≡ map clone (items vs)
unfolding clone
items-clone_items nil = refl
items-clone_items (cons v vs) = ap (λ r. clone v ∷ r) (items-clone_items vs)

pub IsObject-clone : (v : Value) → IsObject v → IsObject (clone v)
unfolding clone IsObject
IsObject-clone v (fs, e) = (clone_fields fs, ap clone e)

field-clone : (k : Text) (v : Value) → field k (clone v) ≡ cloned (field k v)
unfolding clone cloned
field-clone k (object fs) = lookup-clone_fields k fs
field-clone k null = refl
field-clone k (boolean b) = refl
field-clone k (string s) = refl
field-clone k (array vs) = refl
field-clone k (number n) = elim (Bool-cases (finite n)) [ inl e ↦ rw e refl | inr e ↦ rw e refl ]

list_of-cloned : (o : Option Value) → list_of (cloned o) ≡ map clone (list_of o)
unfolding clone cloned
list_of-cloned none = refl
list_of-cloned (some (array vs)) = items-clone_items vs
list_of-cloned (some (object fs)) = refl
list_of-cloned (some null) = refl
list_of-cloned (some (boolean b)) = refl
list_of-cloned (some (string s)) = refl
list_of-cloned (some (number n)) = elim (Bool-cases (finite n)) [
  | inl e ↦ rw e refl
  | inr e ↦ rw e refl
]

members_of-cloned : (o : Option Value) → members_of (cloned o) ≡ clone_fields (members_of o)
unfolding clone cloned
members_of-cloned none = refl
members_of-cloned (some (array vs)) = refl
members_of-cloned (some (object fs)) = refl
members_of-cloned (some null) = refl
members_of-cloned (some (boolean b)) = refl
members_of-cloned (some (string s)) = refl
members_of-cloned (some (number n)) = elim (Bool-cases (finite n)) [
  | inl e ↦ rw e refl
  | inr e ↦ rw e refl
]

-- The objects of a clone, and their attributes, are the clones of those that it was made from.
pub features-clone : (v : Value) → features (clone v) ≡ map clone (features v)
unfolding features
features-clone v =
    ap list_of (field-clone (codes "features") v) ∙ list_of-cloned (field (codes "features") v)

pub lookup-properties-clone :
    (k : Text) (f : Value) → lookup k (properties (clone f)) ≡ cloned (lookup k (properties f))
unfolding properties
lookup-properties-clone k f =
    ap (λ o. lookup k (members_of o)) (field-clone (codes "properties") f)
    ∙ ap (lookup k) (members_of-cloned (field (codes "properties") f))
    ∙ lookup-clone_fields k (members_of (field (codes "properties") f))
