-- ===== src/Tiles/Tests.antt =====
-- Tests and examples of the map sources and the building of local tiles in cmd/web/app.js.
use osmmini.Base.{◌≡◌, ◌≢◌, refl, true, false, none, some, List, [], ◌∷◌, Text, codes}
use osmmini.Base.Int.{pos}
use osmmini.Planning.Arithmetic.{int}
use osmmini.Planning.Counting.{counting}
use osmmini.Tiles.{
  Preset, Form, category, badges, preview_url, matching_preset, visible_presets, local_id, is,
  kind_label,
}
use osmmini.Tiles.Build.{Status, Platform, status_with, stage_of, ready, zooms_from, style_zoom}
use osmmini.Tiles.Session.{Session, handle}
use osmmini.Tiles.Session.Finish.{answered, was_applied, was_left}
use osmmini.Tiles.Session.Handlers.{
  Event, build_clicked, status_came, order_came, applied, poll_due, run, page_start,
}
use osmmini.Tiles.Session.Kept.{IsWatched}
use osmmini.Tiles.Session.Reached.{run-IsWatched}
use osmmini.Tiles.Session.Twice.{later, shown_at, handle-handle}
use osmmini.Tiles.Session.Undone.{chosen_then-IsAfter, chosen_then, IsAfter}

abbrev same : Text → Text
same s = s

abbrev platform : Platform
platform = record {
  math = counting;
  floor = λ x. x;
  show = λ x. codes "n";
  format = λ digits x. codes "n";
  upper = λ s. s;
}

abbrev basemap : Preset
basemap = record {
  id = codes "basemap_de";
  label = codes "basemap.de";
  source = record {
    map_type = codes "raster";
    upstream = codes "https://a/{z}/{x}/{y}.png";
    style_url = [];
    wms_layers = [];
    attribution = codes "BKG";
    max_zoom = int 18;
  };
}

abbrev local : Preset
local = record {
  id = local_id;
  label = codes "Offline";
  source = record {
    map_type = codes "vector";
    upstream = [];
    style_url = codes "/static/styles/tinytiles-minimal.json";
    wms_layers = [];
    attribution = [];
    max_zoom = int 14;
  };
}

abbrev form : Form
form = record {
  map_type = codes "wms";
  upstream = codes " https://b ";
  style_url = [];
  wms_layers = codes "dop";
  attribution = [];
  max_zoom = some 12;
}

preview_url-basemap : preview_url basemap ≡ codes "https://a/10/544/354.png"
unfolding preview_url
preview_url-basemap = refl

badges-basemap : badges same basemap ≡ codes "Online" ∷ codes "Raster" ∷ []
unfolding badges category kind_label
badges-basemap = refl

matching_preset-local : matching_preset (basemap ∷ local ∷ []) local.source ≡ some local
unfolding matching_preset
matching_preset-local = refl

visible_presets-offline : visible_presets (codes "offline") (basemap ∷ local ∷ []) ≡ local ∷ []
unfolding visible_presets category
visible_presets-offline = refl

zooms_from-swapped : zooms_from (some (pos 9)) (some (pos 8)) ≡ none
unfolding zooms_from
zooms_from-swapped = refl

abbrev ready_status : Status
ready_status = record (status_with (codes "Ready") [] [] none) {
  min_zoom = int 3;
  max_zoom = int 20;
  territory_layer = codes "plz";
}

stage_of-ready : stage_of ready_status ≡ ready
unfolding stage_of
stage_of-ready = refl

style_zoom-ready : style_zoom ready_status ≡ pos 14
unfolding style_zoom
style_zoom-ready = refl

abbrev start : Session
start = page_start platform form (some (pos 8)) (some (pos 14)) (int 0)

abbrev building_status : Status
building_status = status_with (codes "building") [] [] (some (int 40))

abbrev events : List Event
events =
    status_came (answered none)
    ∷ build_clicked
    ∷ order_came 0 (answered (some building_status))
    ∷ poll_due
    ∷ status_came (answered (some ready_status))
    ∷ applied 0 was_applied
    ∷ []

-- A build that is ordered is activated once it is ready.
run-activated : (run platform events start).active_preset ≡ local_id
unfolding run page_start
run-activated = refl

run-IsWatched_example : IsWatched (run platform events start)
run-IsWatched_example = run-IsWatched platform form (some (pos 8)) (some (pos 14)) (int 0) events

handle-handle_example :
    handle platform ready_status (later platform (int 5) (handle platform ready_status start))
    ≡ shown_at platform (int 5) ready_status (handle platform ready_status start)
handle-handle_example = handle-handle platform ready_status (int 5) start

is-basemap : is local_id basemap ≡ false
is-basemap = refl

wms_given : codes "wms" ≢ []
wms_given e = cc

chosen_then-IsAfter_example :
    IsAfter platform was_left basemap start (chosen_then platform was_left true basemap start)
unfolding page_start
chosen_then-IsAfter_example =
    chosen_then-IsAfter platform was_left true basemap start is-basemap wms_given
