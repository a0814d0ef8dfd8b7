-- ===== src/Planning/Items.antt =====
-- `collection` and `restore` of cmd/web/planning.js: sketches as GeoJSON, and as they are stored.
-- `show` is `String` on values that are no texts. A kind is a text: that `Object.hasOwn` also takes
-- what turns into one, such as a list of one text, is left out.
use osmmini.Base.{
  ℕ, Bool, false, not, ◌||◌, Option, none, some, List, [], ◌∷◌, ◌++◌, map, Text, codes, find_key,
  take_units, length, ltb, if◌then◌else◌, ok, err, ◌>>=◌, traverse,
}
use osmmini.Json.{
  Value, null, number, string, array, object, field, items, to_items, to_fields, truthy,
}
use osmmini.Json.Numbers.{Number, whole, between, nan, number_eq}
use osmmini.Planning.Arithmetic.{Arithmetic, int, Point}
use osmmini.Planning.Measure.{
  Kind, line, site, building, kind_name, kind_eq, Item, Metrics, Checked, unwrap, measure,
  unknown_kind, invalid_draft,
}

abbrev pub kind_word : Kind → Text
kind_word line = codes "line"
kind_word site = codes "site"
kind_word building = codes "building"

abbrev kinds : List (Text × Kind)
kinds = (codes "line", line) ∷ (codes "site", site) ∷ (codes "building", building) ∷ []

abbrev pub max_items : ℕ
max_items = 100

abbrev pub point_value : Point → Value
point_value p = array (to_items (number p.0 ∷ number p.1 ∷ []))

-- What `JSON.stringify` writes for a number: `null` for one that is not finite.
abbrev pub finite_value : Number → Value
finite_value (whole i) = number (whole i)
finite_value (between i f) = number (between i f)
finite_value n = null

-- What `restore` takes of an item that was measured.
abbrev kept_floors : Kind → Number → Number
kept_floors building floors = floors
kept_floors kind floors = int 1

abbrev pub taken : Item → Item
taken item = record item { floors = kept_floors item.kind item.floors }

module _ (math : Arithmetic) where
  abbrev shape : Kind → List Point → Value
  shape line p = object (
      to_fields (
        (codes "type", string (codes "LineString"))
        ∷ (codes "coordinates", array (to_items (map point_value p)))
        ∷ []))
  shape kind p = object (
      to_fields (
        (codes "type", string (codes "Polygon"))
        ∷ (codes "coordinates", array (to_items (array (to_items (ring p)) ∷ [])))
        ∷ []))
    where
      ring : List Point → List Value
      ring [] = []
      ring (q ∷ rest) = map point_value (q ∷ rest) ++ point_value q ∷ []

  abbrev floors_of : Item → List (Text × Value)
  floors_of item =
      if kind_eq item.kind building then (codes "floors", number item.floors) ∷ [] else []

  abbrev feature : Item → Metrics → Value
  feature item m = object (
      to_fields (
        (codes "type", string (codes "Feature"))
        ∷ (
          codes "properties",
          object (
              to_fields (
                (codes "name", string item.name)
                ∷ (codes "kind", string (kind_word item.kind))
                ∷ (floors_of item
                    ++ (codes "length_m", number m.length_m)
                      ∷ (codes "area_m2", number m.area_m2)
                      ∷ (codes "floor_area_m2", number m.floor_area_m2)
                      ∷ (
                        codes "measurement_model",
                        string (codes "sphere R=6371008.8m; sketch, not survey"),
                      )
                      ∷ []))),
        )
        ∷ (codes "geometry", shape item.kind (unwrap math item.points))
        ∷ []))

  -- `collection`
  unfoldable pub collection : List Item → Checked Value
  unfolding measure unwrap
  collection sketches =
      traverse (λ item. measure math item >>= λ m. ok (feature item m)) sketches >>= λ features.
      ok (
        object (
          to_fields (
            (codes "type", string (codes "FeatureCollection"))
            ∷ (codes "features", array (to_items features))
            ∷ [])))

  -- A member of a list that is no pair of numbers is no point: its coordinates are no numbers.
  abbrev pub read_point : Value → Point
  read_point (array vs) = pair (items vs)
    where
      pair : List Value → Point
      pair (number x ∷ number y ∷ []) = (x, y)
      pair other = (nan, nan)
  read_point v = (nan, nan)

  abbrev pub read_points : Option Value → List Point
  read_points (some (array vs)) = map read_point (items vs)
  read_points v = []

  abbrev pub read_number : Option Value → Number
  read_number (some (number n)) = n
  read_number v = nan

  abbrev pub read_kind : Option Value → Option Kind
  read_kind (some (string s)) = find_key s kinds
  read_kind v = none

  module _ (show : Value → Text) where
    abbrev pub text_of : Value → Text
    text_of (string s) = s
    text_of v = show v

    -- `String(item.name || kinds[item.kind]).slice(0, 80)`
    abbrev pub read_name : Kind → Option Value → Text
    read_name kind none = take_units 80 (kind_name kind)
    read_name kind (some v) = take_units 80 (if truthy v then text_of v else kind_name kind)

    abbrev pub read_item : Value → Kind → Item
    read_item v kind = record {
      kind = kind;
      points = read_points (field (codes "points") v);
      name = read_name kind (field (codes "name") v);
      floors = read_number (field (codes "floors") v);
    }

    abbrev pub read_as : Value → Option Kind → Checked Item
    read_as v none = err unknown_kind
    read_as v (some kind) = measure math (read_item v kind) >>= λ m. ok (taken (read_item v kind))

    unfoldable pub restore_item : Value → Checked Item
    unfolding measure kind_name
    restore_item v = read_as v (read_kind (field (codes "kind") v))

    abbrev pub is_version : Option Value → Bool
    is_version (some (number n)) = number_eq n (int 1)
    is_version v = false

    abbrev pub restore_list : Option Value → Checked (List Item)
    restore_list (some (array vs)) =
        let restored = traverse restore_item (items vs) in
        if ltb max_items (length (items vs)) then err invalid_draft else restored
    restore_list v = err invalid_draft

    -- `restore`, of the value of a JSON text.
    unfoldable pub restore : Value → Checked (List Item)
    unfolding restore_item
    restore stored =
        let restored = restore_list (field (codes "items") stored) in
        if not (truthy stored) || not (is_version (field (codes "version") stored))
        then err invalid_draft
        else restored

-- What `persist` stores.
abbrev pub item_value : Item → Value
item_value item = object (
    to_fields (
      (codes "kind", string (kind_word item.kind))
      ∷ (codes "name", string item.name)
      ∷ (codes "floors", finite_value item.floors)
      ∷ (codes "points", array (to_items (map point_value item.points)))
      ∷ []))

unfoldable pub stored_value : List Item → Value
stored_value sketches = object (
    to_fields (
      (codes "version", number (int 1))
      ∷ (codes "items", array (to_items (map item_value sketches)))
      ∷ []))
