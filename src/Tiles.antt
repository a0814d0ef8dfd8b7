-- ===== src/Tiles.antt =====
-- The map sources of cmd/web/app.js: the presets that the server offers, their cards, and the form
-- whose values become the settings of a source. A missing text is empty; all elements of the page
-- are there, and a number field stands for what `parseInt` finds in it. A `max_zoom` is less than
-- 10 ^ 21, from where on a number is written with an exponent, of which `parseInt` reads no more than
-- the first digit.
pub mod Build
pub mod Session
mod Tests
use osmmini.Base.{
  ℕ, zero, suc, ◌-◌, Bool, true, false, not, ◌&&◌, ◌||◌, Option, none, some, List, [], ◌∷◌, ◌++◌,
  map, Text, codes, text_eq, trim, length, is_nil, any, keep, find, ltb, if◌then◌else◌,
}
use osmmini.Base.Int.{pos}
use osmmini.Json.Numbers.{Number, whole}
use osmmini.Presets.Kinds.{emoji}

-- The settings of a source, `tiles`.
pub record Source : Type 0 where
  pub map_type : Text
  pub upstream : Text
  pub style_url : Text
  pub wms_layers : Text
  pub attribution : Text
  pub max_zoom : Number

pub record Preset : Type 0 where
  pub id : Text
  pub label : Text
  pub source : Source

-- The fields of the form.
pub record Form : Type 0 where
  pub map_type : Text
  pub upstream : Text
  pub style_url : Text
  pub wms_layers : Text
  pub attribution : Text
  pub max_zoom : Option ℕ

-- `s || t`
abbrev pub or_text : Text → Text → Text
or_text [] t = t
or_text (c ∷ s) t = c ∷ s

abbrev pub local_id : Text
local_id = codes "tinytiles_local"

abbrev pub is : Text → Preset → Bool
is id preset = text_eq preset.id id

abbrev pub is_vector : Text → Bool
is_vector kind = text_eq kind (codes "vector")

abbrev starts_with : Text → Text → Bool
starts_with [] s = true
starts_with (c ∷ p) [] = false
starts_with (c ∷ p) (d ∷ s) = text_eq (c ∷ []) (d ∷ []) && starts_with p s

abbrev contains_text : Text → Text → Bool
contains_text p [] = starts_with p []
contains_text p (c ∷ s) = starts_with p (c ∷ s) || contains_text p s

pub data Category : Type 0 where
  offline bayern online : Category

abbrev pub category_name : Category → Text
category_name offline = codes "offline"
category_name bayern = codes "bayern"
category_name online = codes "online"

-- `tilePresetCategory`
unfoldable pub category : Preset → Category
category preset =
    if is local_id preset || is (codes "geodata_custom") preset
    then offline
    else if starts_with (codes "bayern_") preset.id || is (codes "geodaten_bavaria") preset
    then bayern
    else online

-- `isRecommendedTilePreset`
unfoldable pub is_recommended : Preset → Bool
is_recommended preset =
    any (text_eq preset.id) (local_id ∷ codes "basemap_de" ∷ codes "bayern_vector_standard" ∷ [])

-- `tilePresetKindLabel`; `lower` is the platform's `toLowerCase`.
unfoldable pub kind_label : (Text → Text) → Preset → Text
kind_label lower preset =
    let kind = lower (or_text preset.source.map_type (codes "raster")) in
    if is_vector kind
    then codes "Vektor"
    else if text_eq kind (codes "wms")
    then codes "WMS"
    else codes "Raster"

-- `tilePresetDescription`
abbrev described : Category → Preset → Text
described bayern preset =
    if is_vector preset.source.map_type
    then codes "Bayern · detaillierte Vektorkarte"
    else codes "Bayern · amtliche Karte"
described _ preset =
    if is (codes "basemap_de") preset
    then codes "Deutschland · amtliche Basiskarte"
    else codes "Online · Kartenquelle des Anbieters"

unfoldable pub description : Preset → Text
unfolding category
description preset =
    if is local_id preset
    then codes "Aus deiner PBF – ohne externe Tile-API"
    else described (category preset) preset

-- `tilePresetIcon`
unfoldable pub icon : Preset → Text
icon preset =
    if is local_id preset
    then codes "📦"
    else if contains_text (codes "luftbild") preset.id
    then emoji "🛰"
    else if is_vector preset.source.map_type
    then codes "◈"
    else if text_eq preset.source.map_type (codes "wms")
    then codes "▦"
    else codes "▤"

abbrev badge : Category → Text
badge offline = codes "Offline"
badge bayern = codes "Bayern"
badge online = codes "Online"

-- `tilePresetBadges`
unfoldable pub badges : (Text → Text) → Preset → List Text
unfolding category kind_label
badges lower preset = badge (category preset) ∷ kind_label lower preset ∷ []

-- `String.prototype.replaceAll`, for a pattern that is not empty.
abbrev replace_from : ℕ → Text → Text → Text → Text
replace_from skip pattern by [] = []
replace_from (suc skip) pattern by (c ∷ s) = replace_from skip pattern by s
replace_from zero pattern by (c ∷ s) =
    let after = replace_from (length pattern - 1) pattern by s in
    let rest = replace_from 0 pattern by s in
    if starts_with pattern (c ∷ s) then by ++ after else c ∷ rest

abbrev replace_all : Text → Text → Text → Text
replace_all pattern by s = replace_from 0 pattern by s

-- `tilePreviewURL`
unfoldable pub preview_url : Preset → Text
preview_url preset =
    if is_nil preset.source.upstream || text_eq preset.source.map_type (codes "wms")
    then []
    else replace_all (codes "{y}") (codes "354") (
        replace_all (codes "{x}") (codes "544")
          (replace_all (codes "{z}") (codes "10") preset.source.upstream))

-- `matchingPresetForTiles`
abbrev same_style : Source → Preset → Bool
same_style tiles preset =
    not (is_nil preset.source.style_url) && text_eq preset.source.style_url tiles.style_url

abbrev same_upstream : Source → Preset → Bool
same_upstream tiles preset =
    not (is_nil preset.source.upstream)
    && (text_eq preset.source.upstream tiles.upstream
        && (text_eq (or_text preset.source.map_type (codes "raster"))
              (or_text tiles.map_type (codes "raster"))
            && text_eq preset.source.wms_layers tiles.wms_layers))

abbrev or_found : Option Preset → Option Preset → Option Preset
or_found (some preset) other = some preset
or_found none other = other

unfoldable pub matching_preset : List Preset → Source → Option Preset
matching_preset presets tiles =
    or_found (find (same_style tiles) presets) (find (same_upstream tiles) presets)

-- `syncTileSourcePickerFromTiles`: the ID of the card that is marked.
abbrev id_or_empty : Option Preset → Text
id_or_empty none = []
id_or_empty (some preset) = preset.id

unfoldable pub marked_id : List Preset → Source → Text
unfolding matching_preset
marked_id presets tiles = id_or_empty (matching_preset presets tiles)

-- `setTileSourceForm`
abbrev pub zoom_field : Number → Option ℕ
zoom_field (whole (pos (suc n))) = some (suc n)
zoom_field x = none

unfoldable pub form_of : Source → Form
form_of source = record {
  map_type = or_text source.map_type (codes "raster");
  upstream = source.upstream;
  style_url = source.style_url;
  wms_layers = source.wms_layers;
  attribution = source.attribution;
  max_zoom = zoom_field source.max_zoom;
}

-- `tileSettingsFromUI`: the form has all the fields, so nothing of the fallback stays.
abbrev pub zoom_setting : Option ℕ → Number
zoom_setting none = whole (pos 0)
zoom_setting (some n) = whole (pos n)

unfoldable pub settings_of : Form → Source
settings_of form = record {
  map_type = form.map_type;
  upstream = trim form.upstream;
  style_url = trim form.style_url;
  wms_layers = trim form.wms_layers;
  attribution = form.attribution;
  max_zoom = zoom_setting form.max_zoom;
}

-- `updateMapTypeVisibility`: whether the rows for the address, the style and the layers are shown.
unfoldable pub shown_rows : Text → Bool × Bool × Bool
shown_rows kind = (not (is_vector kind), is_vector kind, text_eq kind (codes "wms"))

-- `visibleTilePresets`
unfoldable pub visible_presets : Text → List Preset → List Preset
unfolding category is_recommended
visible_presets filter presets =
    if text_eq filter (codes "recommended")
    then keep is_recommended presets
    else keep (λ preset. text_eq (category_name (category preset)) filter) presets

-- `renderTileSourceCards`: the cards, or the note that stands for none, and whether it is busy.
unfoldable pub source_cards : Text → List Preset → List Preset × Option Text × Bool
unfolding visible_presets
source_cards filter presets =
    let visible = visible_presets filter presets in
    let empty = some (codes "Für diese Kategorie ist keine Kartenquelle verfügbar.") in
    (visible, if is_nil visible then empty else none, is_nil presets)

-- `renderWelcomeOnlineCards`
abbrev found_all : List (Option Preset) → List Preset
found_all [] = []
found_all (none ∷ rest) = found_all rest
found_all (some preset ∷ rest) = preset ∷ found_all rest

unfoldable pub welcome_cards : List Preset → List Preset
welcome_cards presets =
    found_all
      (map (λ id. find (is id) presets) (codes "basemap_de" ∷ codes "bayern_vector_standard" ∷ []))
