-- ===== src/Tiles/Build/View.antt =====
-- The panel that shows the building of local tiles, and the overlay over the map, in cmd/web/app.js.
use osmmini.Base.{
  Bool, true, false, not, ◌&&◌, ◌||◌, Option, none, some, List, [], ◌∷◌, ◌++◌, Text, codes, text_eq,
  is_nil, if◌then◌else◌,
}
use osmmini.Json.Numbers.{Number, nan, number_eq, finite}
use osmmini.Planning.Arithmetic.{int}
use osmmini.Tiles.{Source, or_text}
use osmmini.Tiles.Build.{
  Stage, idle, building, ready, failed, Status, Platform, is_building, is_ready, stage_of,
  status_text,
}

-- What `updateTinyTilesUI` writes into the page.
pub record View : Type 0 where
  pub stage : Stage
  pub icon : Text
  pub title : Text
  pub message : Text
  pub facts : List (Text × Text)
  pub progress_hidden : Bool
  pub value_text : Text
  pub value_now : Option Number
  pub build_disabled : Bool
  pub build_text : Text
  pub activate_shown : Bool
  pub postcode_hidden : Bool

-- What `updateMapAvailabilityUI` writes: the title of the map's mode, or none where it leaves it as it
-- is, and the title, the message and the button of the notice, where that is shown.
pub record Availability : Type 0 where
  pub mode_title : Option Text
  pub notice : Option (Text × Text × Text)

abbrev is_local : Source → Bool
is_local tiles = text_eq tiles.style_url (codes "/static/styles/tinytiles-minimal.json")

abbrev notice_texts : Text → Text × Text × Text
notice_texts state =
    if text_eq state (codes "building")
    then (
      codes "Deine Karte wird vorbereitet",
      codes
          "Du kannst die Suche und Routenplanung bereits nutzen. Den Fortschritt findest du unter Karten.",
      codes "Fortschritt ansehen",
    )
    else if text_eq state (codes "failed")
    then (
      codes "Die Karte konnte nicht vorbereitet werden",
      codes
          "Öffne die Kartenvorbereitung für Details und einen neuen Versuch oder wähle eine Online-Karte.",
      codes "Vorbereitung öffnen",
    )
    else (
      codes "Deine Offline-Karte fehlt noch",
      codes
          "Bereite die Karte deiner Region einmalig vor. Danach kannst du sie ohne Internet nutzen.",
      codes "Karte vorbereiten",
    )

abbrev mode_text : Text → Text
mode_text state =
    if text_eq state (codes "ready")
    then codes "Offline-Karte aktiv"
    else codes "Offline-Karte ausgewählt"

unfoldable pub availability_of : Source → Status → Availability
availability_of tiles status = record {
  mode_title = if is_local tiles then some (mode_text status.state) else none;
  notice =
      if not (is_local tiles) || (is_nil status.state || text_eq status.state (codes "ready"))
      then none
      else some (notice_texts status.state);
}

pub record Overlay : Type 0 where
  pub title : Text
  pub message : Text
  pub icon : Text
  pub value_text : Text
  pub value_now : Option Number

-- The button and the line for areas of postal codes.
pub record Postal : Type 0 where
  pub disabled : Bool
  pub label : Text
  pub line : Option Text

abbrev raw : Option Number → Number
raw none = nan
raw (some x) = x

-- `Number(progress)` where a missing `progress` is null by default.
abbrev raw_or_null : Option Number → Number
raw_or_null none = int 0
raw_or_null (some x) = x

module _ (p : Platform) where
  abbrev percent : Number → Number
  percent x = p.math.max (int 0) (p.math.min (int 100) (p.math.round x))

  abbrev percent_text : Number → Text
  percent_text x = p.show (percent x) ++ codes " %"

  -- `formatTinyTilesBytes`: the loop over the units, and the text.
  abbrev scaled : Number → Text → List Text → Number × Text
  scaled x unit [] = (x, unit)
  scaled x unit (next ∷ rest) =
      let deeper = scaled (p.math.div x (int 1024)) next rest in
      if p.math.leq (int 1024) x then deeper else (x, unit)

  abbrev with_unit : Number × Text → Text
  with_unit (x, unit) =
      let digits = if p.math.leq (int 10) x || text_eq unit (codes "B") then 0 else 1 in
      p.format digits x ++ (codes " " ++ unit)

  unfoldable pub format_bytes : Number → Text
  format_bytes bytes =
      if not (finite bytes) || p.math.leq bytes (int 0)
      then []
      else with_unit
          (scaled bytes (codes "B") (codes "KB" ∷ codes "MB" ∷ codes "GB" ∷ codes "TB" ∷ []))

  -- `formatTinyTilesDuration`
  abbrev until : Number → Status → Stage → Number
  until now status stage =
      if finite status.finished_at
      then status.finished_at
      else if is_building stage
      then now
      else nan

  abbrev minutes_text : Number → Text
  minutes_text seconds =
      let minutes = p.show (p.floor (p.math.div seconds (int 60))) in
      let rest = p.math.rem seconds (int 60) in
      if number_eq rest (int 0)
      then minutes ++ codes " Min."
      else minutes ++ (codes " Min. " ++ (p.show rest ++ codes " Sek."))

  abbrev seconds_text : Number → Text
  seconds_text seconds =
      if p.math.less seconds (int 60) then p.show seconds ++ codes " Sek." else minutes_text seconds

  unfoldable pub format_duration : Number → Status → Stage → Text
  format_duration now status stage =
      let last = until now status stage in
      if not (finite status.started_at) || (not (finite last) || p.math.leq last status.started_at)
      then []
      else seconds_text (p.math.round (p.math.div (p.math.sub last status.started_at) (int 1000)))

  -- `updateTinyTilesFacts`; nothing is shown where there are no entries.
  abbrev text_fact : Text → Text → List (Text × Text)
  text_fact label value = if is_nil value then [] else (label, value) ∷ []

  abbrev count_fact : Text → Number → List (Text × Text)
  count_fact label n = if p.math.less (int 0) n then (label, p.format 3 n) ∷ [] else []

  abbrev duration_label : Stage → Text
  duration_label stage = if is_building stage then codes "Läuft seit" else codes "Build-Dauer"

  unfoldable pub facts_of : Number → Status → Stage → List (Text × Text)
  unfolding format_bytes format_duration
  facts_of now status stage =
      text_fact (codes "PBF-Quelle") (format_bytes status.source_bytes)
      ++ (count_fact (codes "Geschätzte Kacheln") status.estimated_tile_count
          ++ (text_fact (codes "Geschätzter Speicher") (format_bytes status.estimated_disk_bytes)
              ++ (count_fact (codes "Erzeugte Kacheln") status.generated_tiles
                  ++ (count_fact (codes "Straßenobjekte") status.road_features
                      ++ (count_fact (codes "Gebäudeobjekte") status.building_features
                          ++ (count_fact (codes "Gewässerobjekte") status.waterway_features
                              ++ text_fact (duration_label stage)
                                  (format_duration now status stage)))))))

  -- `updateTinyTilesUI`
  abbrev has_progress : Status → Stage → Bool
  has_progress status stage = is_building stage && finite (raw status.progress)

  abbrev value_text_of : Status → Stage → Text → Text
  value_text_of status building message =
      if finite (raw status.progress)
      then percent_text (raw status.progress) ++ (codes " – " ++ message)
      else message
  value_text_of status ready message = codes "Abgeschlossen"
  value_text_of status stage message = codes "Nicht aktiv"

  abbrev build_text_of : Stage → Text
  build_text_of building = codes "Offline-Karte wird erzeugt …"
  build_text_of ready = codes "Offline-Karte neu erzeugen"
  build_text_of stage = codes "Offline-Karte erzeugen"

  unfoldable pub view_at : Number → Status → Stage → Text × Text × Text → View
  unfolding facts_of
  view_at now status stage (icon, title, message) = record {
    stage = stage;
    icon = icon;
    title = title;
    message = message;
    facts = facts_of now status stage;
    progress_hidden = not (is_building stage);
    value_text = value_text_of status stage message;
    value_now = if has_progress status stage then some (percent (raw status.progress)) else none;
    build_disabled = is_building stage;
    build_text = build_text_of stage;
    activate_shown = is_ready stage;
    postcode_hidden = not (is_ready stage) || not status.postal_codes;
  }

  unfoldable pub view_of : Number → Status → View
  unfolding stage_of status_text view_at
  view_of now status = view_at now status (stage_of status) (status_text status (stage_of status))

  -- `showTileLoadOverlay`
  abbrev pub overlay_at : Text → Text → Bool → Number → Overlay
  overlay_at title message local value = record {
    title = title;
    message = message;
    icon = if local then codes "📦" else codes "◌";
    value_text = if finite value then percent_text value else codes "Wird geladen";
    value_now = if finite value then some (percent value) else none;
  }

  unfoldable pub overlay_of : Text → Text → Option Number → Bool → Overlay
  overlay_of title message progress local = overlay_at title message local (raw_or_null progress)

  -- The part of `handleTinyTilesStatus` for areas of postal codes.
  abbrev line_text : Status → Stage → Text
  line_text status failed =
      or_text status.message (codes "PLZ-Gebiete konnten nicht erzeugt werden.")
  line_text status stage = or_text status.message (codes "PLZ-Gebiete werden verarbeitet.")

  abbrev line_progress : Status → Text
  line_progress status =
      if finite (raw status.progress)
      then codes " (" ++ (p.show (percent (raw status.progress)) ++ codes ") %")
      else []

  abbrev postal_line : Status → Stage → Option Text
  postal_line status idle = none
  postal_line status stage =
      if status.postal_codes then some (line_text status stage ++ line_progress status) else none

  abbrev postal_label : Bool → Text
  postal_label true = codes "PLZ-Gebiete werden erzeugt …"
  postal_label false = codes "PLZ-Gebiete erzeugen"

  unfoldable pub postal_of : Status → Stage → Postal
  postal_of status stage = record {
    disabled = is_building stage && status.postal_codes;
    label = postal_label (is_building stage && status.postal_codes);
    line = postal_line status stage;
  }
