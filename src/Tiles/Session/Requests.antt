-- ===== src/Tiles/Session/Requests.antt =====
-- `startTinyTilesBuild` and `fetchTinyTilesStatus` of cmd/web/app.js, with what their callers do then.
use osmmini.Base.{ℕ, Bool, true, false, ◌==◌, Option, none, some, [], Text, codes, if◌then◌else◌}
use osmmini.Base.Int.{ℤ}
use osmmini.Planning.Arithmetic.{int}
use osmmini.Tiles.Build.{
  Stage, building, ready, Status, status_with, Platform, stage_of, zooms_from, response_error,
}
use osmmini.Tiles.Build.View.{view_of}
use osmmini.Tiles.Session.{
  by_choice, by_button, Order, ordering, Waiter, poll, page, choice, button, refused_order, info,
  error_tone, Session, toast, await, settled, stop_polling, schedule_polling, open_builder,
  activate, handle,
}
use osmmini.Tiles.Session.Finish.{Reply, answered, refused, thrown}

-- The zooms of an order, with whether it covers the map.
abbrev pub preparing : Status
preparing =
    status_with (codes "building") [] (codes "Offline-Karte wird vorbereitet …") (some (int 0))

module _ (p : Platform) where
  -- `startTinyTilesBuild`, up to its request.
  abbrev pub order_with : Bool → ℕ → Bool → Bool → Option (ℤ × ℤ) → Session → Session
  order_with postal length auto cover none s =
      toast error_tone
        (codes "Bitte gültige Zoomstufen zwischen 5 und 14 wählen (Minimum ≤ Maximum).") s
  order_with postal length auto cover (some zooms) s =
      let order : Order = record {
        zooms = zooms;
        postal_codes = postal;
        prefix_length = length;
        auto_activate = auto;
      } in
      await (ordering order) (handle p preparing (record s { load_requested = cover }))

  unfoldable pub start_build : Bool → ℕ → Bool → Bool → Session → Session
  unfolding zooms_from handle
  start_build postal length auto cover s =
      order_with postal length auto cover (zooms_from s.min_zoom s.max_zoom) s

  abbrev pub failure : Text → Status
  failure message = status_with (codes "failed") message [] (some (int 0))

  unfoldable pub build_failed : Text → Session → Session
  unfolding handle
  build_failed message s =
      toast error_tone message
        (handle p (failure message) (record (settled s) { auto_activate = false }))

  -- What the caller of `fetchTinyTilesStatus` does with its result.
  abbrev pub chosen_stage : Stage → Status → Session → Session
  chosen_stage ready status s = activate p by_choice status s
  chosen_stage building status s = open_builder (record s { auto_activate = true })
  chosen_stage stage status s = start_build false 3 true true (open_builder s)

  abbrev pub button_stage : Stage → Status → Session → Session
  button_stage ready status s = activate p by_button status s
  button_stage stage status s = s

  abbrev pub poll_stage : Stage → Session → Session
  poll_stage building s = schedule_polling s
  poll_stage stage s = s

  abbrev pub refused_stage : Stage → Session → Session
  refused_stage building s = toast info (codes "Offline-Karte wird bereits erzeugt.") s
  refused_stage stage s = s

  unfoldable pub resume : Waiter → Option Status → Session → Session
  unfolding stage_of activate start_build build_failed
  resume poll none s = s
  resume poll (some status) s = poll_stage (stage_of status) s
  resume page result s = s
  resume choice none s = open_builder (settled s)
  resume choice (some status) s = chosen_stage (stage_of status) status s
  resume button none s = s
  resume button (some status) s = button_stage (stage_of status) status s
  resume (refused_order message) none s = build_failed message s
  resume (refused_order message) (some status) s = refused_stage (stage_of status) s

  -- `fetchTinyTilesStatus`: while a request is under way, the last state answers at once.
  abbrev pub fetch_when : Option Waiter → Waiter → Session → Session
  fetch_when none waiter s = record s { waiting = some waiter }
  fetch_when (some other) waiter s = resume waiter (some s.latest) s

  unfoldable pub fetch_status : Waiter → Session → Session
  unfolding resume
  fetch_status waiter s = fetch_when s.waiting waiter s

  abbrev pub is_silent : Waiter → Bool
  is_silent poll = true
  is_silent waiter = false

  abbrev pub idle_view : Bool → Text → Session → Session
  idle_view true message s = s
  idle_view false message s = record s {
    view = view_of p s.clock (status_with (codes "idle") [] message none);
  }

  abbrev pub fetch_failed : Text → Waiter → Session → Session
  fetch_failed message waiter s =
      resume waiter none
        (record (idle_view (is_silent waiter) message (stop_polling s)) { waiting = none })

  abbrev pub or_blank : Option Status → Status
  or_blank none = status_with [] [] [] none
  or_blank (some status) = status

  unfoldable pub status_came_to : Waiter → Reply → Session → Session
  unfolding handle resume view_of response_error
  status_came_to waiter (answered result) s =
      resume waiter result (record (handle p (or_blank result) s) { waiting = none })
  status_came_to waiter (refused code error message) s =
      fetch_failed
        (response_error p.show code error message (codes "tinyTiles-Status nicht abrufbar")) waiter
        s
  status_came_to waiter (thrown message) s = fetch_failed message waiter s

  abbrev pub status_came_when : Option Waiter → Reply → Session → Session
  status_came_when none reply s = s
  status_came_when (some waiter) reply s = status_came_to waiter reply s

  -- The rest of `startTinyTilesBuild`, after its request.
  abbrev pub order_refused : Bool → ℕ → Text → Session → Session
  order_refused auto code message s =
      if code == 409
      then fetch_status (refused_order message) (record s { auto_activate = auto })
      else build_failed message s

  abbrev pub or_building : Option Status → Status
  or_building none = status_with (codes "building") [] [] none
  or_building (some status) = status

  unfoldable pub finish_order : Order → Reply → Session → Session
  unfolding handle build_failed fetch_status response_error
  finish_order order (answered result) s =
      toast info (codes "Offline-Karte wird im Hintergrund erzeugt.")
        (handle p (or_building result) (record s { auto_activate = order.auto_activate }))
  finish_order order (refused code error message) s =
      order_refused order.auto_activate code
        (response_error p.show code error message
          (codes "Offline-Karte konnte nicht gestartet werden"))
        s
  finish_order order (thrown message) s = build_failed message s
