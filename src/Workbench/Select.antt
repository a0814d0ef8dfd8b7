-- ===== src/Workbench/Select.antt =====
-- `fields`, `matching`, `subset`, `selectFields` and `edit` of cmd/web/geo-workbench.js. An
-- attribute is one of the object's own: those of every object's prototype are left out.
pub mod Edited
use osmmini.Base.{
  ℕ, zero, suc, Bool, true, false, not, ◌&&◌, ◌||◌, Option, none, some, List, [], ◌∷◌, map, Text,
  codes, text_eq, text_lt, flat_map, keep, any, is_nil, trim, stable_sort, get_elem?, if◌then◌else◌,
  ok, err, ◌>>=◌, traverse,
}
use osmmini.Base.Int.{pos}
use osmmini.Json.{Value, null, boolean, number, string, object, Fields, lookup, end}
use osmmini.Json.Numbers.{Number, whole, between}
use osmmini.Workbench.Objects.{
  clone, set_member, set_field, remove_field, features, with_features, properties, keys_of, owns,
  is_scalar, text,
}
use osmmini.Workbench.Problem.{
  Checked, invalid_selection, no_such_attribute, nested_attribute, no_finite_number, no_boolean,
}

-- `[...new Set(xs)]`
abbrev pub distinct : List Text → List Text
distinct [] = []
distinct (x ∷ xs) = x ∷ keep (λ y. not (text_eq y x)) (distinct xs)

abbrev pub feature_keys : Value → List Text
feature_keys f = keys_of (properties f)

-- `fields`
unfoldable pub fields : Value → List Text
fields collection =
    stable_sort (λ a b. not (text_lt b a)) (distinct (flat_map feature_keys (features collection)))

-- `fields(data).includes(name)`
abbrev pub includes : Text → List Text → Bool
includes name xs = any (λ x. text_eq x name) xs

-- `subset`
unfoldable pub chosen : List Value → List ℕ → Checked (List Value)
unfolding clone
chosen fs indices = traverse (λ i. or_invalid (get_elem? fs i)) indices
  where
    or_invalid : Option Value → Checked Value
    or_invalid none = err invalid_selection
    or_invalid (some f) = ok (clone f)

unfoldable pub subset : Value → List ℕ → Checked Value
unfolding features with_features chosen clone
subset collection indices = chosen (features collection) indices >>= λ fs.
    ok (with_features fs (remove_field (codes "bbox") (clone collection)))

-- `Object.fromEntries(keys.filter(own).map(...))`
abbrev pick_members : Fields → List Text → Fields → Fields
pick_members source [] out = out
pick_members source (key ∷ rest) out = pick_members source rest (put (lookup key source))
  where
    put : Option Value → Fields
    put none = out
    put (some v) = set_member key v out

-- `selectFields`
unfoldable pub select_fields : Value → List Text → Value
unfolding features with_features properties set_member clone
select_fields collection kept =
    with_features
      (map (λ f. set_field (codes "properties") (object (pick_members (properties f) kept end)) f)
        (features (clone collection)))
      (clone collection)

abbrev pub replace_at {ℓ} : {A : Type ℓ} → ℕ → A → List A → List A
replace_at i a [] = []
replace_at zero a (x ∷ xs) = a ∷ xs
replace_at (suc i) a (x ∷ xs) = x ∷ replace_at i a xs

-- An index that is no integer, or below 0, finds no feature.
abbrev pub at_index : List Value → Number → Option (ℕ × Value)
at_index fs (whole (pos i)) = with_place (get_elem? fs i)
  where
    with_place : Option Value → Option (ℕ × Value)
    with_place none = none
    with_place (some f) = some (i, f)
at_index fs _ = none

-- `show` is `String` on numbers, `stringify` is `JSON.stringify`, and `to_number` is `Number` on texts.
module _ (show : Number → Text) (stringify : Value → Text) (to_number : Text → Number) where
  abbrev holds : Text → Text → Value → Bool
  holds name value f =
      is_nil name
      || (owns name (properties f)
          && text_eq (text show stringify (lookup name (properties f))) value)

  abbrev pub places : (Value → Bool) → ℕ → List Value → List ℕ
  places test i [] = []
  places test i (f ∷ rest) =
      let after = places test (suc i) rest in if test f then i ∷ after else after

  -- `matching`
  unfoldable pub matching : Value → Text → Text → List ℕ
  unfolding features properties text
  matching collection name value = places (holds name value) 0 (features collection)

  abbrev finite : Number → Checked Value
  finite (whole i) = ok (number (whole i))
  finite (between i f) = ok (number (between i f))
  finite _ = err no_finite_number

  -- The value that replaces the present one: of its type, where it has one.
  unfoldable pub next_value : Option Value → Text → Checked Value
  next_value none value = ok (string value)
  next_value (some null) value = ok (if text_eq value (codes "null") then null else string value)
  next_value (some (boolean b)) value =
      if text_eq value (codes "true") || text_eq value (codes "false")
      then ok (boolean (text_eq value (codes "true")))
      else err no_boolean
  next_value (some (number n)) value =
      let read = finite (to_number value) in
      if is_nil (trim value) then err no_finite_number else read
  next_value (some (string s)) value = ok (string value)
  next_value (some v) value = err nested_attribute

  abbrev pub write : Value → ℕ × Value → Text → Value → Value
  write collection (i, f) name next =
      with_features
        (replace_at i
          (set_field (codes "properties") (object (set_member name next (properties f))) f)
          (features collection))
        collection

  abbrev pub edit_at : Value → Text → Text → Option (ℕ × Value) → Checked Value
  edit_at collection name value none = err no_such_attribute
  edit_at collection name value (some (i, f)) =
      let written = next_value (lookup name (properties f)) value >>= λ next.
      ok (write (clone collection) (i, clone f) name next) in
      if includes name (fields collection) then written else err no_such_attribute

  -- `edit`
  unfoldable pub edit : Value → Number → Text → Text → Checked Value
  unfolding fields next_value features with_features set_member properties clone
  edit collection index name value =
      edit_at collection name value (at_index (features collection) index)
