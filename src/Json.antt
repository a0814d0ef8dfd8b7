-- ===== src/Json.antt =====
-- The values of JavaScript that a parsed JSON text can hold, and the tests that
-- cmd/web/osm-editor.js makes on them.
pub mod Numbers
use osmmini.Base.{
  not, ◌==◌, ℕ, Bool, true, false, Option, none, some, List, [], ◌∷◌, Text, text_eq, if◌then◌else◌,
}
use osmmini.Base.Int.{pos}
use Numbers.{Number, whole, nan}

mutual
  pub data Value : Type 0 where
    null : Value
    boolean : Bool → Value
    number : Number → Value
    string : Text → Value
    array : Items → Value
    object : Fields → Value

  pub data Items : Type 0 where
    nil : Items
    cons : Value → Items → Items

  -- The own properties of an object, each key once.
  pub data Fields : Type 0 where
    end : Fields
    property : Text → Value → Fields → Fields

abbrev pub items : Items → List Value
items nil = []
items (cons v r) = v ∷ items r

abbrev pub to_items : List Value → Items
to_items [] = nil
to_items (v ∷ r) = cons v (to_items r)

-- `Object.entries`.
abbrev pub entries : Fields → List (Text × Value)
entries end = []
entries (property k v r) = (k, v) ∷ entries r

abbrev pub to_fields : List (Text × Value) → Fields
to_fields [] = end
to_fields ((k, v) ∷ r) = property k v (to_fields r)

abbrev pub lookup : Text → Fields → Option Value
lookup k end = none
lookup k (property j v r) = if text_eq j k then some v else lookup k r

-- `v.k`; `none` stands for `undefined`, which every value but an object gives for the keys that
-- the program reads.
abbrev pub field : Text → Value → Option Value
field k (object fs) = lookup k fs
field k _ = none

-- `!!v`.
abbrev pub truthy : Value → Bool
truthy null = false
truthy (boolean b) = b
truthy (number (whole (pos n))) = not (n == 0)
truthy (number nan) = false
truthy (string []) = false
truthy _ = true
