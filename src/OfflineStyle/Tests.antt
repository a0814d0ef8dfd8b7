-- ===== src/OfflineStyle/Tests.antt =====
-- Tests and examples of the style of the offline map in cmd/web/offline-style.js.
use osmmini.Base.{◌≡◌, refl, true, none, some, List, [], ◌∷◌, Text, codes, arith, find_key}
use osmmini.Json.{Value, string, number, array, object, null, to_fields, to_items}
use osmmini.Planning.Arithmetic.{int}
use osmmini.Planning.Counting.{counting}
use osmmini.OfflineStyle.{Places, scale_width, normalize, standard}
use osmmini.OfflineStyle.Editor.{
  Event, Layer, edited, save_clicked, slid, written, create, run, paint_for, edit,
}
use osmmini.OfflineStyle.Kept.{create-run}

abbrev shown : Value → Text
shown v = codes "[]"

abbrev places : Places
places = record {
  six_tenths = 60;
  eight_tenths = 80;
  atlas_width = 15;
  contrast_width = 35;
  three_halves = 50;
}

abbrev stops : List Value
stops =
    string (codes "interpolate")
    ∷ array (to_items (string (codes "linear") ∷ []))
    ∷ array (to_items (string (codes "zoom") ∷ []))
    ∷ number (int 5)
    ∷ number (int 1)
    ∷ number (int 14)
    ∷ number (int 8)
    ∷ []

abbrev doubled : List Value
doubled =
    string (codes "interpolate")
    ∷ array (to_items (string (codes "linear") ∷ []))
    ∷ array (to_items (string (codes "zoom") ∷ []))
    ∷ number (int 5)
    ∷ number (int 2)
    ∷ number (int 14)
    ∷ number (int 16)
    ∷ []

scale_width-interpolate :
    scale_width counting.mul (int 2) (array (to_items stops)) ≡ array (to_items doubled)
unfolding scale_width
scale_width-interpolate = refl

abbrev water : Layer
water = record {
  id = codes "water";
  source = codes "tinytiles";
  source_layer = codes "water";
  paint = (codes "fill-color", some null) ∷ [];
}

paint_for-water :
    paint_for counting.mul water standard
    ≡ (codes "fill-color", some (string (codes "#aad3df"))) ∷ []
unfolding paint_for standard
paint_for-water = refl

abbrev events : List Event
events =
    edited (codes "roadWidth") (slid (int 7))
    ∷ edited (codes "water") (written (codes "#12345G"))
    ∷ save_clicked true
    ∷ []

run-clamped :
    find_key (codes "roadWidth") (run shown places events (create shown places none)).draft
    ≡ some (number (int 2))
unfolding run create standard normalize edit
run-clamped = refl

create-run_example :
    (create shown places
      (some (object (to_fields (run shown places events (create shown places none)).draft)))).draft
    ≡ (run shown places events (create shown places none)).draft
create-run_example = create-run shown places none events (omega arith)
