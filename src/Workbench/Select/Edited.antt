-- ===== src/Workbench/Select/Edited.antt =====
-- What `edit` of cmd/web/geo-workbench.js changes.
use osmmini.Base.{
  ℕ, zero, suc, ◌≡◌, refl, ap, sym, ◌∙◌, inl, inr, true, false, not, Option, none, some, List, [],
  ◌∷◌, map, Text, codes, text_eq, text_eq_iff, get_elem?, length, In, ℕ_discrete, Bool-cases,
  Option-cases, ok, >>=-eq-ok, guarded-eq-ok, ltb,
}
use osmmini.Base.Int.{pos}
use osmmini.Json.{Value, object, field, lookup}
use osmmini.Json.Numbers.{Number, whole}
use osmmini.Workbench.Problem.{no_collection, has_crs, too_many_features}
use osmmini.Workbench.Objects.{clone, set_member, set_field, features, properties}
use osmmini.Workbench.Objects.Members.{
  lookup-set_member, lookup-set_member_other, features-with_features, properties-set_field,
  IsObject, IsObject-field, IsObject-clone, features-clone, lookup-properties-clone, cloned,
}
use osmmini.Workbench.Validate.{
  validate, check_system, count_features, is_collection, each, feature, is_feature, is_set,
  max_features,
}
use osmmini.Workbench.Select.{edit, edit_at, write, replace_at, next_value, includes, fields}

-- The value of an attribute of the feature at a place.
abbrev attribute_of : Text → Option Value → Option Value
attribute_of name none = none
attribute_of name (some f) = lookup name (properties f)

unfoldable pub attribute : Value → ℕ → Text → Option Value
attribute collection i name = attribute_of name (get_elem? (features collection) i)

differs : (s t : Text) → ((s ≡ t) → ⊥) → text_eq s t ≡ false
differs s t h = elim (Bool-cases (text_eq s t)) [
  | inl e ↦ absurd (h ((text_eq_iff s t).0 e))
  | inr e ↦ e
]

each-is_feature :
    (points : ℕ) (fs : List Value) (n : ℕ)
    → each feature points fs ≡ ok n
    → (f : Value) → In f fs
    → is_feature f ≡ true
unfolding each feature
each-is_feature points [] n h f m = absurd m
each-is_feature points (g ∷ fs) n h f m =
    let (next, e, rest) = >>=-eq-ok (feature points (some g)) (λ p. each feature p fs) h in
    elim m [
      | inl q ↦ elim (Bool-cases (is_feature g)) [
        | inl t ↦ ap is_feature q ∙ t
        | inr t ↦ let clash = rw t at e in cc
      ]
      | inr r ↦ each-is_feature next fs n rest f r
    ]

IsObject-is_feature : (f : Value) → is_feature f ≡ true → IsObject f
IsObject-is_feature f h = elim (Option-cases (field (codes "type") f)) [
  | inl e ↦ let clash = rw e at h in cc
  | inr (w, e) ↦ IsObject-field (codes "type") f w e
]

-- A collection that `validate` accepts is an object with a list of objects.
validate-IsObject : (v : Value) (n : ℕ) → validate v ≡ ok n → IsObject v
unfolding validate
validate-IsObject v n h = elim (Option-cases (field (codes "type") v)) [
  | inl e ↦ let clash = rw e at h in cc
  | inr (w, e) ↦ IsObject-field (codes "type") v w e
]

validate-each : (v : Value) (n : ℕ) → validate v ≡ ok n → each feature 0 (features v) ≡ ok n
unfolding validate check_system count_features
validate-each v n h =
    let crs = (guarded-eq-ok (not (is_collection v)) no_collection (check_system v) h).1 in
    let size = (guarded-eq-ok (is_set (field (codes "crs") v)) has_crs (count_features v) crs).1 in
    (guarded-eq-ok (ltb max_features (length (features v))) too_many_features
      (each feature 0 (features v)) size).1

get_elem?-In : (fs : List Value) (i : ℕ) (f : Value) → get_elem? fs i ≡ some f → In f fs
get_elem?-In [] i f h = cc
get_elem?-In (g ∷ fs) zero f h = inl (let q : f ≡ g = cc in q)
get_elem?-In (g ∷ fs) (suc i) f h = inr (get_elem?-In fs i f h)

get_elem?-replace_at :
    (fs : List Value) (i : ℕ) (f g : Value)
    → get_elem? fs i ≡ some f
    → get_elem? (replace_at i g fs) i ≡ some g
get_elem?-replace_at [] i f g h = cc
get_elem?-replace_at (x ∷ fs) zero f g h = refl
get_elem?-replace_at (x ∷ fs) (suc i) f g h = get_elem?-replace_at fs i f g h

get_elem?-replace_at_other :
    (fs : List Value) (i j : ℕ) (g : Value)
    → (i ≡ j → ⊥)
    → get_elem? (replace_at i g fs) j ≡ get_elem? fs j
get_elem?-replace_at_other [] i j g h = refl
get_elem?-replace_at_other (x ∷ fs) zero zero g h = absurd (h refl)
get_elem?-replace_at_other (x ∷ fs) zero (suc j) g h = refl
get_elem?-replace_at_other (x ∷ fs) (suc i) zero g h = refl
get_elem?-replace_at_other (x ∷ fs) (suc i) (suc j) g h =
    get_elem?-replace_at_other fs i j g (λ e. h (ap suc e))

module _ (show : Number → Text) (stringify : Value → Text) (to_number : Text → Number) where
  -- The feature that is found is the only one that is written.
  written_at :
      (collection result : Value) (i : ℕ) (name value : Text)
      → edit show stringify to_number collection (whole (pos i)) name value ≡ ok result
      → (f next : Value) × (get_elem? (features collection) i ≡ some f)
        × (next_value show stringify to_number (lookup name (properties f)) value ≡ ok next)
        × (write show stringify to_number (clone collection) (i, clone f) name next ≡ result)
        × (includes name (fields collection) ≡ true)
  unfolding edit
  written_at collection result i name value h =
      elim (Option-cases (get_elem? (features collection) i)) [
        | inl e ↦ let clash = rw e at h in cc
        | inr (f, e) ↦
            let step : edit_at show stringify to_number collection name value (some (i, f))
                ≡ ok result =
              rw e at h in
            elim (Bool-cases (includes name (fields collection))) [
              | inr t ↦ let clash = rw t at step in cc
              | inl t ↦
                  let (next, n, w) =
                    >>=-eq-ok
                      (next_value show stringify to_number (lookup name (properties f)) value)
                      (λ next.
                        ok (
                          write show stringify to_number (clone collection) (i, clone f) name next))
                      (rw t at step) in
                  let same : write show stringify to_number (clone collection) (i, clone f) name
                        next
                      ≡ result =
                    cc in
                  (f, next, e, n, same, t)
            ]
      ]

  abbrev new_feature : Value → Text → Value → Value
  new_feature f name next =
      set_field (codes "properties") (object (set_member name next (properties f))) f

  features-write :
      (collection f next : Value) (i : ℕ) (name : Text)
      → IsObject collection
      → features (write show stringify to_number collection (i, f) name next)
        ≡ replace_at i (new_feature f name next) (features collection)
  features-write collection f next i name o =
      features-with_features (replace_at i (new_feature f name next) (features collection))
        collection o

  found-IsObject :
      (collection f : Value) (i n : ℕ)
      → validate collection ≡ ok n
      → get_elem? (features collection) i ≡ some f
      → IsObject f
  found-IsObject collection f i n v e = IsObject-is_feature f (
      each-is_feature 0 (features collection) n (validate-each collection n v) f
        (get_elem?-In (features collection) i f e))

  get_elem?-map :
      (fs : List Value) (i : ℕ) (f : Value)
      → get_elem? fs i ≡ some f
      → get_elem? (map clone fs) i ≡ some (clone f)
  get_elem?-map [] i f h = cc
  get_elem?-map (x ∷ fs) zero f h = ap (λ y. some (clone y)) (let q : x ≡ f = cc in q)
  get_elem?-map (x ∷ fs) (suc i) f h = get_elem?-map fs i f h

  attribute-clone :
      (collection : Value) (j : ℕ) (key : Text)
      → attribute (clone collection) j key ≡ cloned (attribute collection j key)
  unfolding attribute cloned
  attribute-clone collection j key =
      ap (λ fs. attribute_of key (get_elem? fs j)) (features-clone collection)
      ∙ mapped (features collection) j
    where
      mapped :
          (fs : List Value) (n : ℕ)
          → attribute_of key (get_elem? (map clone fs) n)
            ≡ cloned (attribute_of key (get_elem? fs n))
      mapped [] n = refl
      mapped (f ∷ fs) zero = lookup-properties-clone key f
      mapped (f ∷ fs) (suc n) = mapped fs n

  -- An edit of a valid collection that succeeds sets the named attribute of the object at its index
  -- to what its present value makes of the text, and leaves every other attribute of every object as
  -- `clone` does: as it was, but that null stands for a number that is not finite.
  pub edit-attribute :
      (collection result : Value) (n i : ℕ) (name value : Text)
      → validate collection ≡ ok n
      → edit show stringify to_number collection (whole (pos i)) name value ≡ ok result
      → ((next : Value) × (next_value show stringify to_number (attribute collection i name) value
            ≡ ok next)
          × (attribute result i name ≡ some next))
        × ((j : ℕ) (key : Text)
            → ((j ≡ i) × (key ≡ name) → ⊥)
            → attribute result j key ≡ cloned (attribute collection j key))
  unfolding attribute
  edit-attribute collection result n i name value v h =
      let (f, next, e, new, same, t) = written_at collection result i name value h in
      let g = new_feature (clone f) name next in
      let is_object = IsObject-clone f (found-IsObject collection f i n v e) in
      let all =
        ap features (sym same)
        ∙ features-write (clone collection) (clone f) next i name
            (IsObject-clone collection (validate-IsObject collection n v)) in
      let found : get_elem? (features (clone collection)) i ≡ some (clone f) =
        ap (λ fs. get_elem? fs i) (features-clone collection)
        ∙ get_elem?-map (features collection) i f e in
      let inner : properties g ≡ set_member name next (properties (clone f)) =
        properties-set_field (set_member name next (properties (clone f))) (clone f) is_object in
      let here : get_elem? (features result) i ≡ some g =
        ap (λ fs. get_elem? fs i) all
        ∙ get_elem?-replace_at (features (clone collection)) i (clone f) g found in
      (
        (
          next,
          ap (λ o. next_value show stringify to_number (attribute_of name o) value) e ∙ new,
          ap (attribute_of name) here
              ∙ ap (lookup name) inner
              ∙ lookup-set_member name next (properties (clone f)),
        ),
        λ j key other. elim (ℕ_discrete i j) [
          | yes q ↦
              let differ : text_eq name key ≡ false =
                differs name key (λ r. other (sym q, sym r)) in
              ap (λ k. attribute_of key (get_elem? (features result) k)) (sym q)
              ∙ ap (attribute_of key) here
              ∙ ap (lookup key) inner
              ∙ lookup-set_member_other key name next (properties (clone f)) differ
              ∙ ap (attribute_of key) (sym found)
              ∙ ap (λ k. attribute_of key (get_elem? (features (clone collection)) k)) q
              ∙ attribute-clone collection j key
          | no q ↦
              ap (λ fs. attribute_of key (get_elem? fs j)) all
              ∙ ap (attribute_of key)
                  (get_elem?-replace_at_other (features (clone collection)) i j g q)
              ∙ attribute-clone collection j key
        ],
      )
