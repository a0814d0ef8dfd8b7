-- ===== src/Planning/Tests.antt =====
-- Runs of cmd/web/planning.js, and its theorems at concrete sketches. The arithmetic here is that of
-- the natural numbers, with a unit of one degree: it is enough to see which test ends a measurement.
use osmmini.Base.{ℕ, ◌≡◌, refl, true, false, none, List, [], ◌∷◌, map, Text, codes, ok, err, arith}
use osmmini.Json.{Value}
use osmmini.Json.Numbers.{nan}
use osmmini.Planning.Arithmetic.{int, Point}
use osmmini.Planning.Measure.{
  line, building, Item, Metrics, measure, check_place, check_reach, check_floors, sum_edges,
  finish_measure, for_each, measure_edge, distance, haversine, unwrap, intersects, on_segment,
  cross, wrong_count, invalid_point, wrong_floors,
}
use osmmini.Planning.Counting.{counting}
use osmmini.Planning.Items.{restore, stored_value}
use osmmini.Planning.Panel.{Form, Event, run, create, start, finish, point, remove}
use osmmini.Planning.Panel.Kept.{IsPlan, IsSketch}
use osmmini.Planning.Panel.Reached.{run-IsPlan}
use osmmini.Planning.Panel.Reloaded.{reloaded, restore-stored_value}

abbrev place : ℕ → ℕ → Point
place x y = (int x, int y)

abbrev path : Item
path = record { kind = line; points = place 1 1 ∷ place 2 1 ∷ []; name = codes "Weg"; floors = nan }

abbrev house : Item
house = record {
  kind = building;
  points = place 1 1 ∷ place 2 1 ∷ place 2 2 ∷ [];
  name = [];
  floors = int 3;
}

abbrev nothing : Metrics
nothing = record { length_m = int 0; area_m2 = int 0; floor_area_m2 = int 0 }

measure-path : measure counting path ≡ ok nothing
unfolding measure check_place check_reach check_floors sum_edges finish_measure for_each
    measure_edge distance haversine unwrap intersects on_segment cross
measure-path = refl

measure-house : measure counting house ≡ ok nothing
unfolding measure check_place check_reach check_floors sum_edges finish_measure for_each
    measure_edge distance haversine unwrap intersects on_segment cross
measure-house = refl

measure-short :
    measure counting (record house { points = place 1 1 ∷ place 2 1 ∷ [] }) ≡ err wrong_count
unfolding measure
measure-short = refl

measure-north :
    measure counting (record path { points = place 1 1 ∷ place 2 86 ∷ [] }) ≡ err invalid_point
unfolding measure check_place
measure-north = refl

measure-tower : measure counting (record house { floors = int 101 }) ≡ err wrong_floors
unfolding measure check_place check_reach check_floors distance haversine
measure-tower = refl

path-IsSketch : IsSketch counting path
unfolding IsSketch
path-IsSketch = ((nothing, measure-path), refl)

house-IsSketch : IsSketch counting house
unfolding IsSketch
house-IsSketch = ((nothing, measure-house), refl)

abbrev show : Value → Text
show v = []

restore-stored_value_example :
    restore counting show (stored_value (path ∷ house ∷ [])) ≡ ok (map reloaded (path ∷ house ∷ []))
restore-stored_value_example =
    restore-stored_value counting show (path ∷ house ∷ []) (path-IsSketch, (house-IsSketch, tt))
      (omega arith)

abbrev form : Form
form = record { kind = line; name = codes " Weg "; floors = nan }

abbrev events : List Event
events =
    start
    ∷ point false (int 1) (int 1)
    ∷ point false (int 2) (int 1)
    ∷ finish true
    ∷ remove false 0
    ∷ []

run-IsPlan_example : IsPlan counting (run counting events (create counting show form none))
run-IsPlan_example = run-IsPlan counting show form none events
