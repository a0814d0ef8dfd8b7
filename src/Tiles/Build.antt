-- ===== src/Tiles/Build.antt =====
-- What cmd/web/app.js shows of the building of local tiles: `normalizedTinyTilesState` to
-- `updateTinyTilesUI`, `tinyTilesStyleSettings`, the overlay, and the texts of `handleTinyTilesStatus`.
pub mod View
use osmmini.Base.{
  ℕ, Bool, true, false, not, ◌&&◌, ◌||◌, Option, none, some, List, [], ◌∷◌, ◌++◌, Text, codes,
  text_eq, leb, ltb, ◌+◌, is_nil, if◌then◌else◌,
}
use osmmini.Base.Int.{ℤ, pos, leb_ℤ, ltb_ℤ}
use osmmini.Json.Numbers.{Number, whole, between, nan}
use osmmini.Planning.Arithmetic.{Arithmetic, int}
use osmmini.Tiles.{Source, or_text}

pub data Stage : Type 0 where
  idle building ready failed : Stage

-- The fields of the server's answer as they are read: a missing text is empty, a missing number is
-- NaN, and of a date the time that `Date.parse` gives. Of `progress` it matters that it is missing.
pub record Status : Type 0 where
  pub state : Text
  pub message : Text
  pub error : Text
  pub progress : Option Number
  pub min_zoom : Number
  pub max_zoom : Number
  pub source_bytes : Number
  pub estimated_disk_bytes : Number
  pub estimated_tile_count : Number
  pub generated_tiles : Number
  pub road_features : Number
  pub building_features : Number
  pub waterway_features : Number
  pub started_at : Number
  pub finished_at : Number
  pub postal_codes : Bool
  pub territory_layer : Text
  pub territories : Number

-- `{ state, error, message }`, which is `{}` where all are empty.
abbrev pub status_with : Text → Text → Text → Option Number → Status
status_with state error message progress = record {
  state = state;
  message = message;
  error = error;
  progress = progress;
  min_zoom = nan;
  max_zoom = nan;
  source_bytes = nan;
  estimated_disk_bytes = nan;
  estimated_tile_count = nan;
  generated_tiles = nan;
  road_features = nan;
  building_features = nan;
  waterway_features = nan;
  started_at = nan;
  finished_at = nan;
  postal_codes = false;
  territory_layer = [];
  territories = nan;
}

-- What the platform computes: rounding down, a number in a text, a number in German with at most so
-- many decimals, and letters in upper case.
pub record Platform : Type 0 where
  pub math : Arithmetic
  pub floor : Number → Number
  pub show : Number → Text
  pub format : ℕ → Number → Text
  pub upper : Text → Text

-- `toLowerCase`, as far as the names of the states go: only their own letters become them.
abbrev lower : Text → Text
lower [] = []
lower (c ∷ s) = (if leb 65 c && leb c 90 then c + 32 else c) ∷ lower s

-- `normalizedTinyTilesState`
abbrev named_stage : Text → Stage
named_stage name =
    if text_eq name (codes "building")
    then building
    else if text_eq name (codes "ready")
    then ready
    else if text_eq name (codes "failed")
    then failed
    else idle

unfoldable pub stage_of : Status → Stage
stage_of status = named_stage (lower status.state)

abbrev pub is_building : Stage → Bool
is_building building = true
is_building stage = false

abbrev pub is_ready : Stage → Bool
is_ready ready = true
is_ready stage = false

-- `tinyTilesZoomsFromUI`, on what `parseInt` finds in the two fields.
abbrev zooms_within : ℤ → ℤ → Option (ℤ × ℤ)
zooms_within low high =
    if ltb_ℤ low (pos 5) || (ltb_ℤ (pos 14) high || ltb_ℤ high low) then none else some (low, high)

unfoldable pub zooms_from : Option ℤ → Option ℤ → Option (ℤ × ℤ)
zooms_from (some low) (some high) = zooms_within low high
zooms_from _ _ = none

-- `tinyTilesStyleSettings`
abbrev integer_or : ℤ → Number → ℤ
integer_or other (whole i) = i
integer_or other x = other

abbrev larger : ℤ → ℤ → ℤ
larger a b = if leb_ℤ a b then b else a

abbrev smaller : ℤ → ℤ → ℤ
smaller a b = if leb_ℤ a b then a else b

unfoldable pub style_zoom : Status → ℤ
style_zoom status = larger (pos 5) (
    smaller (pos 14)
      (larger (integer_or (pos 8) status.min_zoom) (integer_or (pos 14) status.max_zoom)))

unfoldable pub style_settings : Status → Source
unfolding style_zoom
style_settings status = record {
  map_type = codes "vector";
  upstream = [];
  style_url = codes "/static/styles/tinytiles-minimal.json";
  wms_layers = [];
  attribution = codes "© OpenStreetMap contributors";
  max_zoom = whole (style_zoom status);
}

-- `tinyTilesStatusText`: icon, title and message.
unfoldable pub status_text : Status → Stage → Text × Text × Text
status_text status building = (
  codes "◌",
  codes "Offline-Karte wird erzeugt",
  or_text status.message (
      codes
        "Die lokale Karte wird aus der PBF aufgebaut. Das kann je nach Gebiet einige Zeit dauern."),
)
status_text status ready = (
  codes "✓",
  codes "Offline-Karte bereit",
  or_text status.message
      (codes "Die lokale Kartenquelle kann jetzt ohne externe Tile-API verwendet werden."),
)
status_text status failed = (
  codes "!",
  codes "Erzeugung fehlgeschlagen",
  or_text status.error
      (or_text status.message (codes "Die Offline-Karte konnte nicht erzeugt werden.")),
)
status_text status idle = (
  codes "○",
  codes "Noch keine Offline-Karte",
  or_text status.message (codes "Die lokale Karte wird aus der geladenen PBF erzeugt."),
)

-- `tinyTilesResponseError`, for the code of the answer and the texts in its body.
unfoldable pub response_error : (Number → Text) → ℕ → Text → Text → Text → Text
response_error show code error message fallback =
    if text_eq (show (int code)) (codes "401") || text_eq (show (int code)) (codes "403")
    then codes
        "Administrationsschutz: Server mit -admin-token starten und den Token unten eintragen."
    else or_text error
        (or_text message (fallback ++ (codes " (" ++ (show (int code) ++ codes ")"))))
