-- ===== src/Tiles/Session/Handlers.antt =====
-- The handlers of cmd/web/app.js that choose a map source and build local tiles, and their events.
use osmmini.Base.{
  ℕ, Bool, true, false, ◌||◌, ◌==◌, ltb, Option, none, some, List, [], ◌∷◌, ◌++◌, Text, codes, find,
  if◌then◌else◌,
}
use osmmini.Base.Int.{ℤ}
use osmmini.Json.Numbers.{Number, nan}
use osmmini.Planning.Arithmetic.{int}
use osmmini.Tiles.{Source, Preset, Form, form_of, settings_of, local_id, is, or_text, marked_id}
use osmmini.Tiles.Build.{idle, Status, status_with, Platform}
use osmmini.Tiles.Build.View.{view_of, postal_of, availability_of}
use osmmini.Tiles.Session.{
  base_menu, Task, previewing, previewing_own, Menu, painting, activating, ordering, poll, page,
  choice, button, error_tone, Session, toast, await, hint_of, with_hint, show_overlay,
}
use osmmini.Tiles.Session.Finish.{
  Reply, Outcome, task_at, without_task, finish_preview, finish_own, finish_painting,
  finish_activation, welcomed,
}
use osmmini.Tiles.Session.Requests.{
  start_build, fetch_status, status_came_to, status_came_when, finish_order,
}

-- The number of `order_came` and `applied` says which task it is whose answer has come.
pub data Event : Type 0 where
  chosen : Bool → Preset → Event
  typed : Form → Event
  preview_clicked : Event
  presets_came : List Preset → Source → Event
  filtered : Text → Event
  menu_chosen : Menu → Event
  zooms_typed : Option ℤ → Option ℤ → Event
  build_clicked activate_clicked poll_due : Event
  postal_clicked : Option ℕ → Event
  status_came : Reply → Event
  order_came : ℕ → Reply → Event
  applied : ℕ → Outcome → Event
  clock_set : Number → Event
  mode_set : Source → Event

module _ (p : Platform) where
  -- `selectTinyTilesSource`
  abbrev pub local_form : Option Preset → Session → Session
  local_form none s = s
  local_form (some preset) s = record s { form = form_of preset.source }

  unfoldable pub formed_local : Session → Session
  unfolding form_of with_hint
  formed_local s =
      let formed =
        local_form (find (is local_id) s.presets) (record s { active_preset = local_id }) in
      with_hint (record formed { menu = base_menu })

  abbrev pub requested : Session → Session
  requested s = record s { load_requested = true }

  unfoldable pub select_local : Bool → Session → Session
  unfolding formed_local show_overlay fetch_status
  select_local welcome s = fetch_status p choice (
      show_overlay p (codes "Lokale Karte wird vorbereitet")
        (codes "Prüfe, ob eine Offline-Karte vorhanden ist …") none true
        (requested (welcomed welcome (codes "offline") (formed_local s))))

  -- `selectTilePreset`
  unfoldable pub formed_online : Preset → Session → Session
  unfolding form_of hint_of
  formed_online preset s = record s {
    active_preset = preset.id;
    form = form_of preset.source;
    menu = base_menu;
    hint = hint_of (some preset) s.latest;
  }

  unfoldable pub select_online : Bool → Preset → Session → Session
  unfolding settings_of formed_online show_overlay
  select_online welcome preset s = await (previewing s.active_preset (settings_of s.form)) (
      show_overlay p (codes "Online-Karte wird geladen")
        (preset.label ++ codes " wird vorbereitet.") none false
        (welcomed welcome (codes "online") (formed_online preset s)))

  unfoldable pub select_preset : Bool → Preset → Session → Session
  unfolding select_local select_online
  select_preset welcome preset s =
      if is local_id preset then select_local welcome s else select_online welcome preset s

  -- The preview of the source in the form, and `loadTilePresets` for the settings that hold.
  unfoldable pub preview_own : Session → Session
  unfolding with_hint show_overlay
  preview_own s = await previewing_own (
      show_overlay p (codes "Karte wird geladen")
        (codes "Die eigene Kartenquelle wird vorbereitet.") none false
        (with_hint (record s { active_preset = [] })))

  unfoldable pub with_presets : List Preset → Source → Session → Session
  unfolding marked_id with_hint
  with_presets presets tiles s = with_hint (record s {
    presets = presets;
    active_preset = or_text (marked_id presets tiles) s.active_preset;
  })

  -- The button for areas of postal codes.
  abbrev pub postal_order : Option ℕ → Session → Session
  postal_order none s = toast error_tone (codes "Bitte eine PLZ-Gliederung von 1 bis 5 wählen.") s
  postal_order (some length) s =
      if length == 0 || ltb 5 length
      then toast error_tone (codes "Bitte eine PLZ-Gliederung von 1 bis 5 wählen.") s
      else start_build p true length false false s

  -- A task whose answer has come is taken from the list.
  abbrev pub finish_task : Option Task → Outcome → Session → Session → Session
  finish_task (some (previewing previous tiles)) outcome s rest =
      finish_preview previous tiles outcome rest
  finish_task (some previewing_own) outcome s rest = finish_own outcome rest
  finish_task (some painting) outcome s rest = finish_painting outcome rest
  finish_task (some (activating origin status)) outcome s rest =
      finish_activation origin status outcome rest
  finish_task (some (ordering order)) outcome s rest = s
  finish_task none outcome s rest = s

  unfoldable pub task_done : ℕ → Outcome → Session → Session
  unfolding finish_preview finish_own finish_painting finish_activation
  task_done i outcome s = finish_task (task_at i s.tasks) outcome s (without_task i s)

  abbrev pub answer_order : Option Task → Reply → Session → Session → Session
  answer_order (some (ordering order)) reply s rest = finish_order p order reply rest
  answer_order task reply s rest = s

  unfoldable pub order_done : ℕ → Reply → Session → Session
  unfolding finish_order
  order_done i reply s = answer_order (task_at i s.tasks) reply s (without_task i s)

  -- `updateMapModeUI`, once a source is on the map, as far as the availability goes.
  unfoldable pub set_mode : Source → Session → Session
  unfolding availability_of
  set_mode tiles s = record s { map_tiles = tiles; availability = availability_of tiles s.latest }

  abbrev pub poll_when : Bool → Session → Session
  poll_when true s = fetch_status p poll (record s { timer = false })
  poll_when false s = s

  unfoldable pub step : Event → Session → Session
  unfolding set_mode preview_own with_presets with_hint select_preset start_build fetch_status
      status_came_to order_done task_done
  step (chosen welcome preset) s = select_preset welcome preset s
  step (typed form) s = with_hint (record s { form = form; active_preset = [] })
  step preview_clicked s = preview_own s
  step (presets_came presets tiles) s = with_presets presets tiles s
  step (filtered filter) s = with_hint (record s { filter = filter })
  step (menu_chosen menu) s = record s { menu = menu }
  step (zooms_typed low high) s = record s { min_zoom = low; max_zoom = high }
  step build_clicked s = if s.view.build_disabled then s else start_build p false 3 true true s
  step activate_clicked s = fetch_status p button s
  step poll_due s = poll_when s.timer s
  step (postal_clicked length) s = postal_order length s
  step (status_came reply) s = status_came_when p s.waiting reply s
  step (order_came i reply) s = order_done i reply s
  step (applied i outcome) s = task_done i outcome s
  step (clock_set now) s = record s { clock = now }
  step (mode_set tiles) s = set_mode tiles s

  unfoldable pub run : List Event → Session → Session
  unfolding step
  run [] s = s
  run (e ∷ rest) s = run rest (step e s)

  -- The state when the page is loaded, on what stands in its form and its fields of zoom; it asks for
  -- the state of the build at once.
  abbrev no_source : Source
  no_source = record {
    map_type = [];
    upstream = [];
    style_url = [];
    wms_layers = [];
    attribution = [];
    max_zoom = nan;
  }

  abbrev untouched : Status
  untouched = status_with (codes "idle") [] [] (some (int 0))

  unfoldable pub page_start : Form → Option ℤ → Option ℤ → Number → Session
  unfolding view_of postal_of hint_of availability_of
  page_start form low high now = record {
    presets = [];
    active_preset = [];
    filter = codes "recommended";
    form = form;
    menu = base_menu;
    hint = hint_of none untouched;
    welcome = none;
    latest = untouched;
    view = view_of p now untouched;
    postal = postal_of p untouched idle;
    map_tiles = no_source;
    availability = availability_of no_source untouched;
    min_zoom = low;
    max_zoom = high;
    load_requested = false;
    auto_activate = false;
    timer = false;
    waiting = some page;
    overlay = none;
    announced = [];
    reloads = [];
    tasks = [];
    toasts = [];
    clock = now;
  }
