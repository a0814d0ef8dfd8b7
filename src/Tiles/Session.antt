-- ===== src/Tiles/Session.antt =====
-- The choice of a map source and the building of local tiles in cmd/web/app.js, as a state on which
-- events act. What a request or the map does is an event of its own; `Task` says what is awaited.
pub mod Finish
pub mod Requests
pub mod Handlers
pub mod Kept
pub mod Ended
pub mod Reached
pub mod Twice
pub mod Undone
use osmmini.Base.{
  ℕ, zero, suc, Bool, true, false, not, ◌&&◌, ◌||◌, Option, none, some, List, [], ◌∷◌, ◌++◌, Text,
  codes, text_eq, is_nil, find, if◌then◌else◌,
}
use osmmini.Base.Int.{ℤ, pos}
use osmmini.Json.Numbers.{Number, whole, number_eq}
use osmmini.Planning.Arithmetic.{int}
use osmmini.Tiles.{Source, Preset, Form, form_of, local_id, is, is_vector, description}
use osmmini.Tiles.Build.{
  Stage, idle, building, ready, failed, Status, status_with, Platform, stage_of, is_building,
  is_ready, status_text, style_settings, style_zoom,
}
use osmmini.Tiles.Build.View.{
  View, Overlay, Postal, view_of, overlay_of, postal_of, Availability, availability_of,
}

pub data Menu : Type 0 where
  base_menu offline_menu custom_menu : Menu

-- Which call activates the local map.
pub data Origin : Type 0 where
  by_build by_choice by_button : Origin

-- The request for a build: zooms, areas of postal codes with their prefix, and `autoActivate`.
pub record Order : Type 0 where
  pub zooms : ℤ × ℤ
  pub postal_codes : Bool
  pub prefix_length : ℕ
  pub auto_activate : Bool

-- What is awaited: the map for a preset, with what stood in the form before, that for the form, its painting, the map
-- for the local tiles, or the answer to an order.
pub data Task : Type 0 where
  previewing : Text → Source → Task
  previewing_own painting : Task
  activating : Origin → Status → Task
  ordering : Order → Task

-- Who awaits the state of the build; the last one has an order that was refused with a message.
pub data Waiter : Type 0 where
  poll page choice button : Waiter
  refused_order : Text → Waiter

pub data Tone : Type 0 where
  info success error_tone : Tone

-- `timer`: the next poll is due in `tinyTilesPollIntervalMs`. `waiting`: who has asked for the state
-- that is under way, `tinyTilesPollInFlight`. `clock` is `Date.now()`. `reloads` holds the layers that were dropped from
-- the cache and asked for again. `map_tiles` is
-- `mapAvailabilityTiles`, the source of the map. The toasts stand last first.
pub record Session : Type 0 where
  pub presets : List Preset
  pub active_preset : Text
  pub filter : Text
  pub form : Form
  pub menu : Menu
  pub hint : Text
  pub welcome : Option Text
  pub latest : Status
  pub view : View
  pub postal : Postal
  pub map_tiles : Source
  pub availability : Availability
  pub min_zoom : Option ℤ
  pub max_zoom : Option ℤ
  pub load_requested : Bool
  pub auto_activate : Bool
  pub timer : Bool
  pub waiting : Option Waiter
  pub overlay : Option Overlay
  pub announced : Text
  pub reloads : List Text
  pub tasks : List Task
  pub toasts : List (Tone × Text)
  pub clock : Number

abbrev pub toast : Tone → Text → Session → Session
toast tone message s = record s { toasts = (tone, message) ∷ s.toasts }

abbrev pub await : Task → Session → Session
await task s = record s { tasks = s.tasks ++ task ∷ [] }

-- `hideTileLoadOverlay`
abbrev pub hide_overlay : Session → Session
hide_overlay s = record s { overlay = none }

abbrev pub settled : Session → Session
settled s = record s { load_requested = false; overlay = none }

-- `stopTinyTilesPolling` and `scheduleTinyTilesPolling`.
abbrev pub stop_polling : Session → Session
stop_polling s = record s { timer = false }

abbrev pub schedule_polling : Session → Session
schedule_polling s = record s { timer = true }

-- `setLayersMenu('offline')`, in `openTinyTilesBuilder`.
abbrev pub open_builder : Session → Session
open_builder s = record s { menu = offline_menu }

-- `sourceSelectionHint`
abbrev local_hint : Stage → Text
local_hint ready = codes "Lokale Offline-Karte ist bereit."
local_hint building = codes "Lokale Offline-Karte wird gerade erzeugt."
local_hint stage = codes "Wählt die lokale Offline-Karte und startet bei Bedarf deren Erzeugung."

unfoldable pub hint_of : Option Preset → Status → Text
unfolding stage_of description
hint_of none status =
    codes "Benutzerdefinierte Kartenquelle – bei Bedarf die erweiterten Felder öffnen."
hint_of (some preset) status =
    if is local_id preset
    then local_hint (stage_of status)
    else description preset ++ codes " · Vorschau aktiv, mit „Speichern“ dauerhaft übernehmen."

-- The hint for the preset that is active, the last act of `renderTileSourceCards`.
unfoldable pub with_hint : Session → Session
unfolding hint_of
with_hint s = record s { hint = hint_of (find (is s.active_preset) s.presets) s.latest }

module _ (p : Platform) where
  unfoldable pub show_overlay : Text → Text → Option Number → Bool → Session → Session
  unfolding overlay_of
  show_overlay title message progress local s = record s {
    overlay = some (overlay_of p title message progress local);
  }

  -- `activateTinyTilesMap`, up to the call of `applyTileLayer`.
  unfoldable pub activate : Origin → Status → Session → Session
  unfolding show_overlay
  activate origin status s = await (activating origin status) (
      show_overlay (codes "Lokale Karte wird geladen")
        (codes "Die Offline-Kacheln werden im Browser vorbereitet.") (some (int 100)) true
        (record s { load_requested = true }))

  -- The fields of zoom after a build: `Number.isInteger` of both.
  abbrev pub filled : Stage → Number → Number → ℤ → Option ℤ → Option ℤ
  filled ready (whole low) (whole high) value old = some value
  filled stage low high value old = old

  abbrev pub whole_part : Number → ℤ
  whole_part (whole i) = i
  whole_part x = pos 0

  abbrev pub zoom_shown : Stage → Status → Number → Option ℤ → Option ℤ
  zoom_shown stage status zoom old =
      filled stage status.min_zoom status.max_zoom (whole_part zoom) old

  abbrev message_of : Text × Text × Text → Text
  message_of (icon, title, message) = message

  abbrev pub building_overlay : Status → Overlay
  building_overlay status =
      overlay_of p (codes "Offline-Karte wird erzeugt") (message_of (status_text status building))
        status.progress true

  -- `handleTinyTilesStatus`: what it shows in any state.
  unfoldable pub shown : Stage → Status → Session → Session
  unfolding view_of postal_of hint_of overlay_of status_text availability_of
  shown stage status s = record s {
    latest = status;
    view = view_of p s.clock status;
    min_zoom = zoom_shown stage status status.min_zoom s.min_zoom;
    max_zoom = zoom_shown stage status status.max_zoom s.max_zoom;
    overlay =
        if s.load_requested && is_building stage then some (building_overlay status) else s.overlay;
    hint =
        if text_eq s.active_preset local_id
        then hint_of (find (is s.active_preset) s.presets) status
        else s.hint;
    postal = postal_of p status stage;
    availability = availability_of s.map_tiles status;
  }

  -- What it does in each state.
  abbrev pub failed_load : Bool → Session → Session
  failed_load true s = settled s
  failed_load false s = s

  abbrev pub auto_activated : Bool → Status → Session → Session
  auto_activated true status s = activate by_build status (record s { auto_activate = false })
  auto_activated false status s = s

  abbrev count_text : Number → Text
  count_text (whole i) =
      if number_eq (whole i) (int 0)
      then []
      else codes " (" ++ (p.show (whole i) ++ codes " Gebiete)")
  count_text n = []

  abbrev announced_text : Status → Text
  announced_text status =
      p.upper status.territory_layer
      ++ (codes " ist bereit" ++ (count_text status.territories ++ codes "."))

  abbrev pub announce : Bool → Status → Session → Session
  announce true status s = toast success (announced_text status) (record s {
    announced = status.territory_layer;
    reloads = status.territory_layer ∷ s.reloads;
  })
  announce false status s = s

  abbrev pub is_news : Status → Text → Bool
  is_news status announced =
      not (is_nil status.territory_layer) && not (text_eq status.territory_layer announced)

  unfoldable pub acted : Stage → Status → Session → Session
  unfolding activate
  acted building status s = schedule_polling s
  acted failed status s =
      failed_load s.load_requested (record (stop_polling s) { auto_activate = false })
  acted ready status s =
      announce (is_news status s.announced) status
        (auto_activated s.auto_activate status (stop_polling s))
  acted idle status s = stop_polling s

  unfoldable pub handle : Status → Session → Session
  unfolding stage_of shown acted
  handle status s = acted (stage_of status) status (shown (stage_of status) status s)
