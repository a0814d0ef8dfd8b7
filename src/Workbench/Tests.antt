-- ===== src/Workbench/Tests.antt =====
-- Runs of cmd/web/geo-workbench.js, and its theorems at concrete collections.
use osmmini.Base.{
  ℕ, ◌≡◌, refl, true, some, Option, List, [], ◌∷◌, map, Text, codes, keep, ok, err, arith,
}
use osmmini.Base.Int.{pos}
use osmmini.Json.{Value, null, string, number, array, object, to_items, to_fields}
use osmmini.Json.Numbers.{Number, whole, nan, infinite}
use osmmini.Workbench.Problem.{invalid_quotes, open_ring, no_finite_number}
use osmmini.Workbench.Objects.{clone, features, properties, text, with_features, set_member}
use osmmini.Workbench.Validate.{
  validate, check_system, count_features, each, feature, geometry, polygon, line, position,
}
use osmmini.Workbench.Objects.Members.{cloned}
use osmmini.Workbench.Select.{fields, edit, next_value}
use osmmini.Workbench.Select.Edited.{attribute, edit-attribute}
use osmmini.Workbench.Csv.{parse_csv, to_csv, table_rows, read_rows, table_of, neutral, cells}
use osmmini.Workbench.Csv.Rows.{
  scan, start_scan, finish_row, in_quotes, outside_quotes, write_rows, full_row,
}
use osmmini.Workbench.Csv.Tables.{values, parse_csv-to_csv}
use osmmini.Planning.Arithmetic.{int}
use osmmini.Planning.Counting.{counting}
use osmmini.Workbench.Simplify.{Tally, reduce}
use osmmini.Workbench.Simplify.Ends.{IsReduced, reduce-IsReduced}
use osmmini.Workbench.Session.{Form, geo_file, create}
use osmmini.Workbench.Session.Handlers.{Event, begun, finished, undone, filtered, kept, run}
use osmmini.Workbench.Session.Kept.{IsKept, IsShown}
use osmmini.Workbench.Session.Reached.{run-Fine}

abbrev show : Number → Text
show n = codes "7"

abbrev stringify : Value → Text
stringify v = codes "{}"

abbrev to_number : Text → Number
to_number s = nan

abbrev corner : ℕ → ℕ → Value
corner x y = array (to_items (number (whole (pos x)) ∷ number (whole (pos y)) ∷ []))

abbrev ring : List Value → Value
ring corners = object (
    to_fields (
      (codes "type", string (codes "Polygon"))
      ∷ (codes "coordinates", array (to_items (array (to_items corners) ∷ [])))
      ∷ []))

abbrev feature_of : Value → List (Text × Value) → Value
feature_of shape attributes = object (
    to_fields (
      (codes "type", string (codes "Feature"))
      ∷ (codes "geometry", shape)
      ∷ (codes "properties", object (to_fields attributes))
      ∷ []))

abbrev collection_of : List Value → Value
collection_of fs = object (
    to_fields (
      (codes "type", string (codes "FeatureCollection"))
      ∷ (codes "features", array (to_items fs))
      ∷ []))

abbrev triangle : Value
triangle = ring (corner 0 0 ∷ corner 1 0 ∷ corner 1 1 ∷ corner 0 0 ∷ [])

abbrev park : Value
park =
    feature_of triangle
      ((codes "name", string (codes "\"Park\", 1")) ∷ (codes "area", number (whole (pos 7))) ∷ [])

abbrev wood : Value
wood = feature_of null ((codes "name", string (codes "=Wood")) ∷ [])

abbrev land : Value
land = collection_of (park ∷ wood ∷ [])

validate-land : validate land ≡ ok 4
unfolding validate check_system count_features each feature geometry polygon line position features
validate-land = refl

validate-open :
    validate (
      collection_of
        (feature_of (ring (corner 0 0 ∷ corner 1 0 ∷ corner 1 1 ∷ corner 0 1 ∷ [])) [] ∷ []))
    ≡ err open_ring
unfolding validate check_system count_features each feature geometry polygon line position features
validate-open = refl

to_csv-land :
    to_csv show stringify land
    ≡ codes "\"area\",\"name\"\r\n\"7\",\"\"\"Park\"\", 1\"\r\n\"\",\"'=Wood\"\r\n"
unfolding to_csv table_rows write_rows fields features properties neutral text
to_csv-land = refl

parse_csv-run :
    parse_csv (codes "a,b\n1,\"x\"\"y\"\r\n,\n2,")
    ≡ ok (record {
      header = codes "a" ∷ codes "b" ∷ [];
      rows =
          ((codes "a", codes "1") ∷ (codes "b", codes "x\"y") ∷ [])
          ∷ ((codes "a", codes "2") ∷ (codes "b", []) ∷ [])
          ∷ [];
    })
unfolding parse_csv read_rows table_of scan start_scan finish_row in_quotes outside_quotes
parse_csv-run = refl

parse_csv-quotes : parse_csv (codes "a,b\"") ≡ err invalid_quotes
unfolding parse_csv read_rows table_of scan start_scan finish_row in_quotes outside_quotes
parse_csv-quotes = refl

edit-number :
    edit show stringify to_number land (whole (pos 0)) (codes "area") (codes "x")
    ≡ err no_finite_number
unfolding edit fields next_value features properties
edit-number = refl

parse_csv-to_csv_example :
    parse_csv (to_csv show stringify land)
    ≡ ok (record {
      header = map neutral (fields land);
      rows =
          map
            (cells (map neutral (fields land)))
            (keep full_row (map (values show stringify (fields land)) (features land)));
    })
unfolding fields features properties neutral text to_csv table_rows write_rows
parse_csv-to_csv_example =
    parse_csv-to_csv show stringify land refl refl (omega arith) (omega arith)

abbrev renamed : Value
renamed = collection_of (
    feature_of triangle
      ((codes "name", string (codes "Green")) ∷ (codes "area", number (whole (pos 7))) ∷ [])
    ∷ wood
    ∷ [])

edit-attribute_example :
    ((next : Value) × (next_value show stringify to_number
          (attribute land 0 (codes "name"))
          (codes "Green")
        ≡ ok next)
      × (attribute renamed 0 (codes "name") ≡ some next))
    × ((j : ℕ) (key : Text)
        → ((j ≡ 0) × (key ≡ codes "name") → ⊥)
        → attribute renamed j key ≡ cloned (attribute land j key))
unfolding edit fields next_value features properties with_features set_member validate check_system
    count_features each feature geometry polygon line position
edit-attribute_example =
    edit-attribute show stringify to_number land renamed 4 0 (codes "name") (codes "Green") refl
      refl

abbrev blank_form : Form
blank_form = record {
  filter_field = [];
  filter_value = [];
  edit_field = [];
  edit_index = whole (pos 0);
  edit_value = [];
  join_field = [];
  key_column = [];
  selected = [];
  shown = true;
}

abbrev read_land : Text → Option Value
read_land s = some land

abbrev events : List Event
events =
    begun geo_file
    ∷ finished (ok (codes "{}"))
    ∷ filtered (codes "area") (codes "7")
    ∷ kept
    ∷ undone
    ∷ []

run-Fine_example :
    IsKept
      (run show stringify to_number read_land events (create show stringify to_number blank_form))
    × IsShown show stringify to_number
        (run show stringify to_number read_land events (create show stringify to_number blank_form))
run-Fine_example = run-Fine show stringify to_number read_land blank_form events

clone-infinite :
    clone (array (to_items (number (infinite true) ∷ number nan ∷ [])))
    ≡ array (to_items (null ∷ null ∷ []))
unfolding clone
clone-infinite = refl

-- The middle one of three points goes where it lies within the tolerance.
abbrev bent : List Value
bent = corner 0 0 ∷ corner 2 2 ∷ corner 4 0 ∷ []

abbrev untallied : Tally
untallied = record { operations = 0; removed = 0; lines = 0 }

reduce-bent :
    reduce counting (int 1) (int 3) bent untallied
    ≡ ok (corner 0 0 ∷ corner 4 0 ∷ [], record { operations = 1; removed = 1; lines = 1 })
unfolding reduce
reduce-bent = refl

reduce-IsReduced_example :
    IsReduced counting (int 1) bent (reduce counting (int 1) (int 3) bent untallied)
reduce-IsReduced_example = reduce-IsReduced counting (int 1) (int 3) bent untallied
