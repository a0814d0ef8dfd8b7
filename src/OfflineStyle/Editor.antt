-- ===== src/OfflineStyle/Editor.antt =====
-- The draft of the style in cmd/web/offline-style.js, what is stored of it, and what it sets on the map.
use osmmini.Base.{
  Bool, true, false, not, ◌&&◌, ◌||◌, ◌==◌, Option, none, some, String, List, [], ◌∷◌, ◌++◌, Text,
  codes, text_eq, find_key, find, keep, flat_map, if◌then◌else◌,
}
use osmmini.Json.{Value, null, boolean, number, string, array, object, field, to_fields, to_items}
use osmmini.Json.Numbers.{Number, number_eq}
use osmmini.OfflineStyle.{Style, Places, standard, presets, with_entry, normalize, scale_width}

pub data Notice : Type 0 where
  silent preview_active preview_later saved not_saved : Notice

-- `active` says whether the offline map is shown; `stored` is none where nothing readable is stored.
pub record Editor : Type 0 where
  pub draft : Style
  pub preset : Text
  pub active : Bool
  pub stored : Option Value
  pub notice : Notice

-- What an element of the form gives: `checked`, the number of a range, or a text.
pub data Input : Type 0 where
  checked : Bool → Input
  slid : Number → Input
  written : Text → Input

pub data Event : Type 0 where
  edited : Text → Input → Event
  chosen : Text → Event
  save_clicked : Bool → Event
  reset_clicked : Event
  activated : Bool → Event

abbrev pub input_value : Input → Value
input_value (checked b) = boolean b
input_value (slid n) = number n
input_value (written s) = string s

-- `draft[name]`
abbrev pub entry : Text → Style → Option Value
entry name style = find_key name style

-- `JSON.stringify` of two values gives the same text, where one has texts, numbers and truth values.
abbrev same_value : Value → Value → Bool
same_value (string s) (string t) = text_eq s t
same_value (number m) (number n) = number_eq m n
same_value (boolean true) (boolean c) = c
same_value (boolean false) (boolean c) = not c
same_value v w = false

abbrev same_style : Style → Style → Bool
same_style [] [] = true
same_style ((j, v) ∷ s) ((k, w) ∷ t) = text_eq j k && (same_value v w && same_style s t)
same_style s t = false

abbrev name_or_custom : Option (Text × Style) → Text
name_or_custom none = codes "custom"
name_or_custom (some (name, style)) = name

abbrev preview_notice : Bool → Notice
preview_notice true = preview_active
preview_notice false = preview_later

abbrev drawn : Text → Style → Editor → Editor
drawn preset style e = record e { draft = style; preset = preset; notice = preview_notice e.active }

module _ (show : Value → Text) (at : Places) where
  abbrev pub read_stored : Option Value → Text → Option Value
  read_stored none name = none
  read_stored (some v) name = field name v

  abbrev pub preset_of : Style → Text
  preset_of style = name_or_custom (find (λ (name, s). same_style s style) (presets at))

  -- The start: the draft that is stored, or the standard, and the preset that it is.
  unfoldable pub create : Option Value → Editor
  unfolding normalize presets
  create stored = record {
    draft = normalize show at (read_stored stored);
    preset = preset_of (normalize show at (read_stored stored));
    active = false;
    stored = stored;
    notice = silent;
  }

  unfoldable pub edit : Text → Input → Editor → Editor
  unfolding normalize
  edit name input e =
      drawn (codes "custom")
        (normalize show at (λ k. entry k (with_entry name (input_value input) e.draft))) e

  abbrev pub chosen_style : Text → Option Style → Editor → Editor
  chosen_style name none e = e
  chosen_style name (some style) e = drawn name style e

  unfoldable pub choose : Text → Editor → Editor
  unfolding presets
  choose name e = chosen_style name (find_key name (presets at)) e

  unfoldable pub save : Bool → Editor → Editor
  save true e = record e { stored = some (object (to_fields e.draft)); notice = saved }
  save false e = record e { notice = not_saved }

  unfoldable pub step : Event → Editor → Editor
  unfolding edit choose save standard
  step (edited name input) e = edit name input e
  step (chosen name) e = choose name e
  step (save_clicked room) e = save room e
  step reset_clicked e = drawn (codes "standard") standard e
  step (activated active) e = record e { active = active }

  unfoldable pub run : List Event → Editor → Editor
  unfolding step
  run [] e = e
  run (event ∷ rest) e = run rest (step event e)

-- A layer of the map; `paint` holds its entries, one that is missing is `none`.
pub record Layer : Type 0 where
  pub id : Text
  pub source : Text
  pub source_layer : Text
  pub paint : List (Text × Option Value)

-- What is set: a property of paint, whether a layer is shown, a property of the labels.
pub data Setting : Type 0 where
  painted : Text → Text → Option Value → Setting
  visible : Text → Option Value → Setting
  label : Text → Option Value → Setting

abbrev starts_with : Text → Text → Bool
starts_with [] s = true
starts_with (c ∷ p) [] = false
starts_with (c ∷ p) (d ∷ s) = c == d && starts_with p s

abbrev word : String → Value
word s = string (codes s)

-- An expression that gives a value for each class, or list of classes, and one for the others.
abbrev matching : List Value → Value
matching cases =
    array (to_items (word "match" ∷ array (to_items (word "get" ∷ word "class" ∷ [])) ∷ cases))

abbrev or_null : Option Value → Value
or_null none = null
or_null (some v) = v

abbrev when : Bool → Text → Option Value → List (Text × Option Value) → List (Text × Option Value)
when true k v paint = with_entry k v paint
when false k v paint = paint

module _ (times : Number → Number → Number) where
  abbrev scaled_width : Style → Option Value → Option Value
  scaled_width style none = none
  scaled_width style (some v) = scaled_by (entry (codes "roadWidth") style)
    where
      scaled_by : Option Value → Option Value
      scaled_by (some (number n)) = some (scale_width times n v)
      scaled_by other = some v

  abbrev optional : Option (Option Value) → Option Value
  optional none = none
  optional (some v) = v

  abbrev plain : String → Style → Value
  plain name style = or_null (entry (codes name) style)

  -- The value of a road's class, from the style.
  abbrev road_colour : Style → Value
  road_colour style = matching (
      array (to_items (word "motorway" ∷ word "trunk" ∷ []))
      ∷ plain "motorway" style
      ∷ array (to_items (word "primary" ∷ word "secondary" ∷ []))
      ∷ plain "primary" style
      ∷ plain "residential" style
      ∷ [])

  abbrev field_colour : Style → Value
  field_colour style = matching (word "meadow" ∷ plain "meadow" style ∷ plain "farmland" style ∷ [])

  -- A layer of this ID gets this property.
  abbrev for_layer :
      Layer
      → String
      → String
      → Option Value
      → List (Text × Option Value)
      → List (Text × Option Value)
  for_layer layer id property v paint = when (text_eq layer.id (codes id)) (codes property) v paint

  -- `paintFor`
  unfoldable pub paint_for : Layer → Style → List (Text × Option Value)
  unfolding scale_width
  paint_for layer style =
      let backed =
        for_layer layer "background" "background-color" (entry (codes "background") style)
          layer.paint in
      let watered = for_layer layer "water" "fill-color" (entry (codes "water") style) backed in
      let forested = for_layer layer "forest" "fill-color" (entry (codes "forest") style) watered in
      let built =
        for_layer layer "buildings" "fill-color" (entry (codes "buildings") style) forested in
      let raised =
        for_layer layer "offline-buildings-extrusion" "fill-extrusion-color"
          (entry (codes "buildings") style) built in
      let farmed = for_layer layer "farmland" "fill-color" (some (field_colour style)) raised in
      let roads = for_layer layer "roads" "line-color" (some (road_colour style)) farmed in
      let rivers =
        when (starts_with (codes "offline-waterways-") layer.id) (codes "line-color")
          (entry (codes "water") style) roads in
      when (text_eq layer.source_layer (codes "transportation")) (codes "line-width")
        (scaled_width style (optional (find_key (codes "line-width") rivers))) rivers

  abbrev shown_as : Option Value → Option Value
  shown_as (some (boolean true)) = some (word "visible")
  shown_as v = some (word "none")

  abbrev visibility : Layer → Style → List Setting
  visibility layer style =
      if text_eq layer.id (codes "buildings")
        || text_eq layer.id (codes "offline-buildings-extrusion")
      then visible layer.id (shown_as (entry (codes "showBuildings") style)) ∷ []
      else if text_eq layer.id (codes "paths")
      then visible layer.id (shown_as (entry (codes "showPaths") style)) ∷ []
      else []

  abbrev painted_all : Text → List (Text × Option Value) → List Setting
  painted_all id [] = []
  painted_all id ((k, v) ∷ rest) = painted id k v ∷ painted_all id rest

  abbrev label_display : Option Value → Option Value
  label_display (some (boolean true)) = some (word "block")
  label_display v = some (word "none")

  -- `activate`: the layers that are kept; `apply`: what is set, where the map has the layer.
  unfoldable pub kept_layers : Bool → List Layer → List Layer
  kept_layers false layers = []
  kept_layers true layers =
      keep
        (λ l.
          text_eq l.source (codes "tinytiles")
          || (text_eq l.source (codes "offline-waterways")
              || (text_eq l.source (codes "offline-buildings")
                  || text_eq l.id (codes "background"))))
        layers

  abbrev label_settings : Style → List Setting
  label_settings style =
      label (codes "--offline-label-color") (entry (codes "text") style)
      ∷ label (codes "--offline-label-halo") (entry (codes "halo") style)
      ∷ label (codes "--offline-label-size") (entry (codes "labelSize") style)
      ∷ label (codes "--offline-label-display") (label_display (entry (codes "showLabels") style))
      ∷ []

  unfoldable pub apply : (Text → Bool) → List Layer → Editor → List Setting
  unfolding paint_for
  apply has layers e =
      if e.active
      then flat_map (λ l. painted_all l.id (paint_for l e.draft) ++ visibility l e.draft)
          (keep (λ l. has l.id) layers)
        ++ label_settings e.draft
      else []
