-- ===== src/Territories/Tests.antt =====
-- Runs of the territories of cmd/web/app.js, and their theorem on a concrete route.
use osmmini.Base.{◌≡◌, refl, Bool, List, [], ◌∷◌, Text, codes, text_lt, not}
use osmmini.Json.Numbers.{Number}
use osmmini.Planning.Arithmetic.{int, Point}
use osmmini.Planning.Counting.{counting}
use osmmini.Territories.{
  Feature, polygon, events_for_path, visits_from, enter, find_feature, geometry_contains,
  polygon_contains, point_in_ring, haversine_meters, chord,
}
use osmmini.Territories.Runs.{runs, ids_of, places, events_for_path-runs}

abbrev square_of : Number → Number → List Point
square_of low high = (low, int 0) ∷ (high, int 0) ∷ (high, int 4) ∷ (low, int 4) ∷ []

abbrev west : Feature
west = record { geometry = polygon (square_of (int 0) (int 4) ∷ []); territory_id = codes "W" }

-- A territory with a hole.
abbrev east : Feature
east = record {
  geometry = polygon (square_of (int 4) (int 20) ∷ square_of (int 10) (int 12) ∷ []);
  territory_id = codes "E";
}

abbrev atan2 : Number → Number → Number
atan2 x y = x

abbrev before : Text → Text → Bool
before a b = not (text_lt b a)

abbrev route : List Point
route =
    (int 1, int 1)
    ∷ (int 2, int 1)
    ∷ (int 5, int 1)
    ∷ (int 11, int 1)
    ∷ (int 13, int 1)
    ∷ (int 1, int 1)
    ∷ []

abbrev layer : List Feature
layer = west ∷ east ∷ []

events_for_path-route :
    ids_of (events_for_path counting atan2 (int 6371000) before layer route)
    ≡ codes "W" ∷ codes "E" ∷ codes "E" ∷ codes "W" ∷ []
unfolding events_for_path visits_from enter find_feature geometry_contains polygon_contains
    point_in_ring haversine_meters chord
events_for_path-route = refl

events_for_path-runs_example :
    ids_of (events_for_path counting atan2 (int 6371000) before layer route)
    ≡ runs (places counting atan2 (int 6371000) before layer route)
events_for_path-runs_example = events_for_path-runs counting atan2 (int 6371000) before layer route
