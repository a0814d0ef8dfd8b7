-- ===== src/Workbench/Objects.antt =====
-- What cmd/web/geo-workbench.js does with objects of JavaScript: members that are set or deleted,
-- `own`, `scalar` and `text`.
pub mod Members
use osmmini.Base.{
  ℕ, Bool, true, false, not, Option, none, some, List, [], ◌∷◌, map, Text, codes, text_eq,
  if◌then◌else◌, keep, any,
}
use osmmini.Json.{
  Value, null, boolean, number, string, array, object, Items, Fields, field, lookup, items,
  to_items, entries, end, property, nil, cons,
}
use osmmini.Json.Numbers.{Number, finite}

-- `o[k] = v` on an object of its own members.
unfoldable pub set_member : Text → Value → Fields → Fields
set_member k v end = property k v end
set_member k v (property j w r) =
    let rest = set_member k v r in if text_eq j k then property j v r else property j w rest

-- `delete o[k]`
unfoldable pub remove_member : Text → Fields → Fields
remove_member k end = end
remove_member k (property j w r) =
    let rest = remove_member k r in if text_eq j k then r else property j w rest

abbrev pub set_field : Text → Value → Value → Value
set_field k v (object fs) = object (set_member k v fs)
set_field k v other = other

abbrev pub remove_field : Text → Value → Value
remove_field k (object fs) = object (remove_member k fs)
remove_field k other = other

-- `clone`, which writes a value as JSON and reads it again: a number that is not finite becomes null.
unfoldable mutual
  pub clone : Value → Value
  clone (number n) = if finite n then number n else null
  clone (array vs) = array (clone_items vs)
  clone (object fs) = object (clone_fields fs)
  clone null = null
  clone (boolean b) = boolean b
  clone (string s) = string s

  pub clone_items : Items → Items
  clone_items nil = nil
  clone_items (cons v vs) = cons (clone v) (clone_items vs)

  pub clone_fields : Fields → Fields
  clone_fields end = end
  clone_fields (property k v fs) = property k (clone v) (clone_fields fs)

-- `data.features`, and `data` with other features.
abbrev pub list_of : Option Value → List Value
list_of (some (array vs)) = items vs
list_of _ = []

unfoldable pub features : Value → List Value
features collection = list_of (field (codes "features") collection)

unfoldable pub with_features : List Value → Value → Value
unfolding set_member
with_features fs collection = set_field (codes "features") (array (to_items fs)) collection

-- `f.properties || {}`: the members of an object, and no members of `null` or `undefined`.
abbrev pub members_of : Option Value → Fields
members_of (some (object fs)) = fs
members_of _ = end

unfoldable pub properties : Value → Fields
properties f = members_of (field (codes "properties") f)

abbrev pub keys_of : Fields → List Text
keys_of fs = map (λ e. e.0) (entries fs)

-- `own(f.properties, key)`
abbrev pub owns : Text → Fields → Bool
owns key fs = any (λ j. text_eq j key) (keys_of fs)

-- `scalar(value)`
abbrev pub is_scalar : Value → Bool
is_scalar null = true
is_scalar (boolean b) = true
is_scalar (number n) = true
is_scalar (string s) = true
is_scalar _ = false

-- `show` is `String` on numbers, `stringify` is `JSON.stringify`.
module _ (show : Number → Text) (stringify : Value → Text) where
  unfoldable pub text : Option Value → Text
  text none = []
  text (some null) = []
  text (some (boolean true)) = codes "true"
  text (some (boolean false)) = codes "false"
  text (some (number n)) = show n
  text (some (string s)) = s
  text (some v) = stringify v
