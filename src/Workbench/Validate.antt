-- ===== src/Workbench/Validate.antt =====
-- `validate` of cmd/web/geo-workbench.js: the shape of a feature collection, with a count of its
-- coordinates. Each check takes the number of coordinates that were counted before it.
use osmmini.Base.{
  ℕ, zero, suc, Bool, true, false, not, ◌&&◌, Option, none, some, List, [], ◌∷◌, Text, codes,
  text_eq, length, ltb, all, is_nil, find_key, if◌then◌else◌, ok, err, ◌>>=◌, String,
}
use osmmini.Json.{Value, null, number, string, array, object, field, items, truthy}
use osmmini.Json.Numbers.{Number, whole, between, within, number_eq}
use osmmini.Workbench.Objects.{features}
use osmmini.Workbench.Problem.{
  Checked, no_collection, has_crs, too_many_features, invalid_position, too_many_points, short_line,
  open_ring, no_outer_ring, invalid_geometry, invalid_points, invalid_lines, invalid_polygons,
  invalid_geometries, unsupported_type, invalid_feature,
}

abbrev pub max_points : ℕ
max_points = 50000

abbrev pub max_features : ℕ
max_features = 5000

abbrev is_finite : Value → Bool
is_finite (number (whole i)) = true
is_finite (number (between i f)) = true
is_finite _ = false

abbrev inside : ℕ → Value → Bool
inside bound (number n) = within bound n
inside bound _ = false

abbrev is_position : Option Value → Bool
is_position (some (array vs)) = judge (items vs)
  where
    judge : List Value → Bool
    judge (x ∷ y ∷ rest) = all is_finite (x ∷ y ∷ rest) && (inside 180 x && inside 90 y)
    judge _ = false
is_position _ = false

-- `position`
unfoldable pub position : ℕ → Option Value → Checked ℕ
position points p =
    if not (is_position p)
    then err invalid_position
    else (if ltb max_points (suc points) then err too_many_points else ok (suc points))

-- `xs.forEach(check)`
unfoldable pub each : (ℕ → Option Value → Checked ℕ) → ℕ → List Value → Checked ℕ
each check points [] = ok points
each check points (v ∷ rest) = check points (some v) >>= λ next. each check next rest

abbrev coordinate : ℕ → Value → Option Number
coordinate i (array vs) = pick i (items vs)
  where
    pick : ℕ → List Value → Option Number
    pick zero (number n ∷ rest) = some n
    pick (suc j) (v ∷ rest) = pick j rest
    pick _ _ = none
coordinate i _ = none

abbrev same_number : Option Number → Option Number → Bool
same_number (some a) (some b) = number_eq a b
same_number _ _ = false

abbrev last_value : Value → List Value → Value
last_value v [] = v
last_value v (w ∷ rest) = last_value w rest

abbrev closed : List Value → Bool
closed [] = false
closed (v ∷ rest) =
    same_number (coordinate 0 v) (coordinate 0 (last_value v rest))
    && same_number (coordinate 1 v) (coordinate 1 (last_value v rest))

-- `line`
unfoldable pub line : Bool → ℕ → Option Value → Checked ℕ
unfolding each position
line ring points (some (array vs)) =
    if ltb (length (items vs)) (if ring then 4 else 2)
    then err short_line
    else each position points (items vs) >>= λ next.
        if ring && not (closed (items vs)) then err open_ring else ok next
line ring points _ = err short_line

unfoldable pub polygon : ℕ → Option Value → Checked ℕ
unfolding each line
polygon points (some (array vs)) =
    if is_nil (items vs) then err no_outer_ring else each (line true) points (items vs)
polygon points _ = err no_outer_ring

-- The parts of a geometry that consists of several.
unfoldable pub parts : (ℕ → Option Value → Checked ℕ) → Checked ℕ → ℕ → Option Value → Checked ℕ
unfolding each
parts check wrong points (some (array vs)) = each check points (items vs)
parts check wrong points _ = wrong

pub data GeometryType : Type 0 where
  point multi_point line_string multi_line polygon_type multi_polygon geometry_collection :
      GeometryType

abbrev type_names : List (Text × GeometryType)
type_names =
    (codes "Point", point)
    ∷ (codes "MultiPoint", multi_point)
    ∷ (codes "LineString", line_string)
    ∷ (codes "MultiLineString", multi_line)
    ∷ (codes "Polygon", polygon_type)
    ∷ (codes "MultiPolygon", multi_polygon)
    ∷ (codes "GeometryCollection", geometry_collection)
    ∷ []

abbrev type_of : Option Value → Option GeometryType
type_of (some (string s)) = find_key s type_names
type_of _ = none

-- `geometry(g, depth)`, where `room` is how many levels may still be nested, itself included: 11 - depth.
abbrev shape : (ℕ → Option Value → Checked ℕ) → Option GeometryType → ℕ → Value → Checked ℕ
shape inner none points g = err (unsupported_type (field (codes "type") g))
shape inner (some point) points g = position points (field (codes "coordinates") g)
shape inner (some multi_point) points g =
    parts position (err invalid_points) points (field (codes "coordinates") g)
shape inner (some line_string) points g = line false points (field (codes "coordinates") g)
shape inner (some multi_line) points g =
    parts (line false) (err invalid_lines) points (field (codes "coordinates") g)
shape inner (some polygon_type) points g = polygon points (field (codes "coordinates") g)
shape inner (some multi_polygon) points g =
    parts polygon (err invalid_polygons) points (field (codes "coordinates") g)
shape inner (some geometry_collection) points g =
    parts inner (err invalid_geometries) points (field (codes "geometries") g)

-- `none` stands for `undefined`, which is no geometry.
unfoldable pub geometry : ℕ → ℕ → Option Value → Checked ℕ
unfolding parts polygon line position
geometry room points (some null) = ok points
geometry zero points g = err invalid_geometry
geometry (suc room) points none = err invalid_geometry
geometry (suc room) points (some g) =
    let inner = shape (geometry room) (type_of (field (codes "type") g)) points g in
    if truthy g then inner else err invalid_geometry

abbrev pub is_text : String → Option Value → Bool
is_text t (some (string s)) = text_eq s (codes t)
is_text t _ = false

abbrev pub is_set : Option Value → Bool
is_set none = false
is_set (some v) = truthy v

-- `properties` of a feature: an object, `null` or missing.
abbrev attributes : Option Value → Bool
attributes none = true
attributes (some null) = true
attributes (some (object fs)) = true
attributes _ = false

abbrev present : Option Value → Bool
present none = false
present (some v) = true

abbrev pub is_feature : Value → Bool
is_feature f =
    is_text "Feature" (field (codes "type") f)
    && (present (field (codes "geometry") f) && attributes (field (codes "properties") f))

unfoldable pub feature : ℕ → Option Value → Checked ℕ
unfolding geometry
feature points none = err invalid_feature
feature points (some f) =
    if is_feature f then geometry 11 points (field (codes "geometry") f) else err invalid_feature

abbrev pub is_array : Option Value → Bool
is_array (some (array vs)) = true
is_array _ = false

abbrev pub is_collection : Value → Bool
is_collection input =
    is_text "FeatureCollection" (field (codes "type") input)
    && is_array (field (codes "features") input)

unfoldable pub count_features : Value → Checked ℕ
unfolding features each feature
count_features input =
    let counted = each feature 0 (features input) in
    if ltb max_features (length (features input)) then err too_many_features else counted

unfoldable pub check_system : Value → Checked ℕ
unfolding count_features
check_system input =
    let counted = count_features input in
    if is_set (field (codes "crs") input) then err has_crs else counted

unfoldable pub validate : Value → Checked ℕ
unfolding check_system
validate input =
    let counted = check_system input in
    if not (is_collection input) then err no_collection else counted
