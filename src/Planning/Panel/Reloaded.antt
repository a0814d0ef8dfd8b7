-- ===== src/Planning/Panel/Reloaded.antt =====
-- The sketches that cmd/web/planning.js stores, loaded again.
use osmmini.Base.{
  suc, ◌≤◌, ◌≡◌, refl, ap, ◌∙◌, true, false, not, some, all, List, [], ◌∷◌, map, Text, take_units,
  length, All, ltb, arith, ok, ◌>>=◌, traverse, guarded-eq-ok,
}
use osmmini.Json.{Value, string, number, items, to_items}
use osmmini.Json.Numbers.{Number, whole, between, nan, infinite}
use osmmini.Planning.Arithmetic.{Arithmetic, Point}
use osmmini.Planning.Measure.{
  Kind, line, site, building, kind_name, Item, Metrics, Checked, measure, good_floors, good_point,
  finish_measure, check_place, check_reach, check_floors, sum_edges, far, wrong_size, wrong_count,
  invalid_point, too_far, wrong_floors,
}
use osmmini.Planning.Items.{
  restore, restore_item, stored_value, item_value, taken, max_items, point_value, finite_value,
  read_point, read_name, read_number,
}
use osmmini.Planning.Panel.{named}
use osmmini.Planning.Panel.Kept.{IsSketch, kind_name_le}

-- What is loaded again: a name is made up where there is none, and only buildings have floors.
unfoldable pub reloaded : Item → Item
unfolding kind_name
reloaded item = record (taken item) { name = named item.name item.kind }

good_floors-finite : (n : Number) → good_floors n ≡ true → finite_value n ≡ number n
good_floors-finite (whole i) h = refl
good_floors-finite (between i f) h = cc
good_floors-finite nan h = cc
good_floors-finite (infinite s) h = cc

module _ (math : Arithmetic) where
  read_points-map :
      (p : List Point) → map (read_point math) (items (to_items (map point_value p))) ≡ p
  read_points-map [] = refl
  read_points-map (q ∷ p) = ap (λ r. q ∷ r) (read_points-map p)

  -- The floors of a building that was measured are a number from 1 to 100.
  measure-good_floors :
      (points : List Point) (name : Text) (floors : Number) (m : Metrics)
      → measure math (record { kind = building; points = points; name = name; floors = floors })
        ≡ ok m
      → good_floors floors ≡ true
  unfolding measure check_place check_reach check_floors
  measure-good_floors points name floors m h =
      let item : Item = record { kind = building; points = points; name = name; floors = floors } in
      let place = (guarded-eq-ok (wrong_size math item) wrong_count (check_place math item) h).1 in
      let reach =
        (guarded-eq-ok (not (all good_point points)) invalid_point (check_reach math item)
          place).1 in
      let floor = (guarded-eq-ok (far math points) too_far (check_floors math item) reach).1 in
      let good =
        (guarded-eq-ok (not (good_floors floors)) wrong_floors (sum_edges math item) floor).0 in
      ground (arith, good)

  module _ (show : Value → Text) where
    read_name-named :
        (kind : Kind) (name : Text)
        → take_units 80 name ≡ name
        → read_name math show kind (some (string name)) ≡ named name kind
    read_name-named kind [] h = kind_name_le kind
    read_name-named kind (c ∷ s) h = h

    abbrev read_again : Item → Checked Item
    read_again item = measure math item >>= λ m. ok (taken item)

    -- What is read is the item that was written, but for the name and the floors.
    read_again-eq :
        (kind : Kind) (points : List Point) (name read : Text) (floors : Number) (m : Metrics)
        → read ≡ named name kind
        → measure math (record { kind = kind; points = points; name = read; floors = floors })
          ≡ ok m
        → read_again (record {
          kind = kind;
          points = map (read_point math) (items (to_items (map point_value points)));
          name = read;
          floors = floors;
        })
          ≡ ok (
              taken
                (record { kind = kind; points = points; name = named name kind; floors = floors }))
    read_again-eq kind points name read floors m e h =
        ap (λ p. read_again (record { kind = kind; points = p; name = read; floors = floors }))
          (read_points-map points)
        ∙ ap
            (λ r. r >>= λ n.
              ok (taken (record { kind = kind; points = points; name = read; floors = floors })))
            h
        ∙ ap (λ t. ok (taken (record { kind = kind; points = points; name = t; floors = floors })))
            e

    restore_item-of_kind :
        (kind : Kind) (points : List Point) (name : Text) (floors : Number)
        → let item : Item = record { kind = kind; points = points; name = name; floors = floors } in
          IsSketch math item → restore_item math show (item_value item) ≡ ok (reloaded item)
    unfolding restore_item reloaded IsSketch measure check_place check_reach check_floors sum_edges
        finish_measure
    restore_item-of_kind line points name floors ((m, e), short) =
        read_again-eq line points name (read_name math show line (some (string name)))
          (read_number math (some (finite_value floors))) m (read_name-named line name short) e
    restore_item-of_kind site points name floors ((m, e), short) =
        read_again-eq site points name (read_name math show site (some (string name)))
          (read_number math (some (finite_value floors))) m (read_name-named site name short) e
    restore_item-of_kind building points name floors ((m, e), short) =
        let same =
          ap (λ v. read_number math (some v))
            (good_floors-finite floors (measure-good_floors points name floors m e)) in
        ap
          (λ f. read_again (record {
            kind = building;
            points = map (read_point math) (items (to_items (map point_value points)));
            name = read_name math show building (some (string name));
            floors = f;
          }))
          same
        ∙ read_again-eq building points name (read_name math show building (some (string name)))
            floors m (read_name-named building name short) e

    restore_item-item_value :
        (item : Item)
        → IsSketch math item
        → restore_item math show (item_value item) ≡ ok (reloaded item)
    restore_item-item_value item h =
        restore_item-of_kind item.kind item.points item.name item.floors h

    traverse-restore_item :
        (sketches : List Item)
        → All (IsSketch math) sketches
        → traverse (restore_item math show) (items (to_items (map item_value sketches)))
          ≡ ok (map reloaded sketches)
    traverse-restore_item [] a = refl
    traverse-restore_item (x ∷ xs) a =
        rw (restore_item-item_value x a.0, traverse-restore_item xs a.1) refl

    length-stored :
        (sketches : List Item)
        → length (items (to_items (map item_value sketches))) ≡ length sketches
    length-stored [] = refl
    length-stored (x ∷ xs) = ap suc (length-stored xs)

    -- At most 100 sketches that can be measured, with names of at most 80 code units, are loaded again
    -- as they were stored, but that a sketch without a name gets that of its kind, and that one that is
    -- no building gets one floor.
    pub restore-stored_value :
        (sketches : List Item)
        → All (IsSketch math) sketches
        → length sketches ≤ max_items
        → restore math show (stored_value sketches) ≡ ok (map reloaded sketches)
    unfolding restore stored_value
    restore-stored_value sketches a few =
        let short : ltb max_items (length (items (to_items (map item_value sketches)))) ≡ false =
          ground (arith, few, length-stored sketches) in
        rw short (traverse-restore_item sketches a)
