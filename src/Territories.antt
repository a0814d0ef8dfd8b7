-- ===== src/Territories.antt =====
-- The territories of cmd/web/app.js: which one a point lies in, and what a route enters and leaves.
-- IDs are texts, as in the layers that the server builds; a number as an ID, of which 0 counts as none,
-- is outside the model.
pub mod Runs
mod Tests
use osmmini.Base.{
  ℕ, Bool, true, false, not, ◌&&◌, ◌||◌, Option, none, some, List, [], ◌∷◌, ◌++◌, Text, text_eq,
  keep, any, is_nil, stable_sort, if◌then◌else◌,
}
use osmmini.Json.Numbers.{Number}
use osmmini.Planning.Arithmetic.{Arithmetic, int, Point}

abbrev pub Ring : Type 0
Ring = List Point

-- The geometry of a feature: `other` is any that holds no point, or none.
pub data Geometry : Type 0 where
  polygon : List Ring → Geometry
  multi_polygon : List (List Ring) → Geometry
  other : Geometry

-- The ID is the empty text where the feature has none.
pub record Feature : Type 0 where
  pub geometry : Geometry
  pub territory_id : Text

-- An event of the route, with the kilometres at which it enters and leaves the territory.
pub record Visit : Type 0 where
  pub territory_id : Text
  pub entered_at_km : Number
  pub left_at_km : Number

-- `cur`: the territory that the route is in, and where it entered it.
abbrev pub Current : Type 0
Current = Option (Text × Number)

abbrev pub leave : Current → Number → List Visit
leave none km = []
leave (some c) km = record { territory_id = c.0; entered_at_km = c.1; left_at_km = km } ∷ []

-- A point whose territory is `id`, at `km`: the visit that ends there, and what is current after.
unfoldable pub enter : Text → Number → Current → List Visit × Current
enter [] km current = (leave current km, none)
enter (c ∷ s) km none = ([], some (c ∷ s, km))
enter (c ∷ s) km (some (id, at)) =
    if text_eq id (c ∷ s) then ([], some (id, at)) else (leave (some (id, at)) km, some (c ∷ s, km))

abbrev last_of : Point → Ring → Point
last_of p [] = p
last_of p (q ∷ rest) = last_of q rest

abbrev differs : Bool → Bool → Bool
differs true b = not b
differs false b = b

abbrev flip_if : Bool → Bool → Bool
flip_if b inside = differs b inside

-- `atan2` and 6371000 complete the arithmetic.
module _ (math : Arithmetic) (atan2 : Number → Number → Number) (earth : Number) where
  abbrev crosses : Number → Number → Point → Point → Bool
  crosses lon lat i j =
      differs (math.less lat i.1) (math.less lat j.1)
      && math.less lon (
          math.add (math.div (math.mul (math.sub j.0 i.0) (math.sub lat i.1)) (math.sub j.1 i.1))
            i.0)

  -- Each corner with the one before it.
  abbrev ring_from : Number → Number → Point → Ring → Bool → Bool
  ring_from lon lat j [] inside = inside
  ring_from lon lat j (i ∷ rest) inside =
      ring_from lon lat i rest (flip_if (crosses lon lat i j) inside)

  unfoldable pub point_in_ring : Ring → Number → Number → Bool
  point_in_ring [] lon lat = false
  point_in_ring (p ∷ rest) lon lat = ring_from lon lat (last_of p rest) (p ∷ rest) false

  -- The first ring is the outer one, the others are holes.
  unfoldable pub polygon_contains : List Ring → Number → Number → Bool
  unfolding point_in_ring
  polygon_contains [] lon lat = false
  polygon_contains (outer ∷ holes) lon lat =
      point_in_ring outer lon lat && not (any (λ hole. point_in_ring hole lon lat) holes)

  unfoldable pub geometry_contains : Geometry → Number → Number → Bool
  unfolding polygon_contains
  geometry_contains (polygon rings) lon lat = polygon_contains rings lon lat
  geometry_contains (multi_polygon polygons) lon lat =
      any (λ rings. polygon_contains rings lon lat) polygons
  geometry_contains other lon lat = false

  abbrev head_of : List Feature → Option Feature
  head_of [] = none
  head_of (f ∷ rest) = some f

  abbrev radians : Number → Number
  radians d = math.div (math.mul d math.pi) (int 180)

  abbrev square : Number → Number
  square x = math.mul x x

  abbrev half_sine : Number → Number
  half_sine d = math.sin (math.div (radians d) (int 2))

  unfoldable pub chord : Point → Point → Number
  chord p q = math.add (square (half_sine (math.sub q.1 p.1))) (
      math.mul (math.mul (math.cos (radians p.1)) (math.cos (radians q.1)))
        (square (half_sine (math.sub q.0 p.0))))

  unfoldable pub haversine_meters : Point → Point → Number
  unfolding chord
  haversine_meters p q =
      math.mul (math.mul (int 2) earth)
        (atan2 (math.sqrt (chord p q)) (math.sqrt (math.sub (int 1) (chord p q))))

  -- `before a b` says that `a` may stand before `b` in the order of `localeCompare`.
  module _ (before : Text → Text → Bool) where
    -- `territoryFindFeature`: of the features that contain the point, the first by its ID.
    unfoldable pub find_feature : List Feature → Number → Number → Option Feature
    unfolding geometry_contains
    find_feature features lat lon = head_of (
        stable_sort (λ a b. before a.territory_id b.territory_id)
          (keep (λ f. geometry_contains f.geometry lon lat) features))

    abbrev id_of : Option Feature → Text
    id_of none = []
    id_of (some f) = f.territory_id

    -- The ID of the territory of a point, empty outside of all.
    abbrev pub territory_at : List Feature → Point → Text
    territory_at features p = id_of (find_feature features p.1 p.0)

    -- The loop, behind the point `p` at `km`.
    unfoldable pub visits_from : List Feature → Point → Number → List Point → Current → List Visit
    unfolding enter haversine_meters find_feature
    visits_from features p km [] current = leave current km
    visits_from features p km (q ∷ path) current =
        let on = math.add km (math.div (haversine_meters p q) (int 1000)) in
        let next = enter (territory_at features q) on current in
        next.0 ++ visits_from features q on path next.1

    -- `territoryEventsForPath`
    unfoldable pub events_for_path : List Feature → List Point → List Visit
    unfolding visits_from
    events_for_path features [] = []
    events_for_path features (p ∷ path) =
        let next = enter (territory_at features p) (int 0) none in
        next.0 ++ visits_from features p (int 0) path next.1
