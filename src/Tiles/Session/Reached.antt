-- ===== src/Tiles/Session/Reached.antt =====
-- What holds of the map sources of cmd/web/app.js after any events.
use osmmini.Base.{
  ℕ, Bool, true, false, ◌||◌, ◌==◌, ltb, Option, none, some, List, [], ◌∷◌, Text, codes, find,
  Bool-cases, inl, inr, arith,
}
use osmmini.Base.Int.{ℤ}
use osmmini.Json.Numbers.{Number}
use osmmini.Tiles.{settings_of, Form, Preset, local_id, is}
use osmmini.Tiles.Build.{Platform, stage_of}
use osmmini.Tiles.Build.View.{view_of, view_at}
use osmmini.Tiles.Session.{
  previewing, previewing_own, poll, choice, button, Session, with_hint, show_overlay,
}
use osmmini.Tiles.Session.Finish.{welcomed, task_at, without_task}
use osmmini.Tiles.Session.Handlers.{
  Event, chosen, typed, preview_clicked, presets_came, filtered, menu_chosen, zooms_typed,
  build_clicked, activate_clicked, poll_due, postal_clicked, status_came, order_came, applied,
  clock_set, mode_set, set_mode, step, run, page_start, local_form, select_local, select_online,
  formed_local, formed_online, requested, select_preset, preview_own, with_presets, postal_order,
  task_done, order_done, poll_when,
}
use osmmini.Tiles.Session.Kept.{IsWatched, start_build-IsWatched, fetch_status-IsWatched}
use osmmini.Tiles.Session.Ended.{
  without_task-IsWatched, await-IsWatched, either-IsWatched, unmarked-IsWatched,
  status_came_when-IsWatched, finish_task-IsWatched, answer_order-IsWatched,
}

module _ (p : Platform) where
  welcomed-IsWatched :
      (b : Bool) (text : Text) (s : Session) → IsWatched s → IsWatched (welcomed b text s)
  unfolding IsWatched
  welcomed-IsWatched true text s h = h
  welcomed-IsWatched false text s h = h

  local_form-IsWatched :
      (preset : Option Preset) (s : Session) → IsWatched s → IsWatched (local_form p preset s)
  unfolding IsWatched
  local_form-IsWatched none s h = h
  local_form-IsWatched (some preset) s h = h

  formed_local-IsWatched : (s : Session) → IsWatched s → IsWatched (formed_local p s)
  unfolding IsWatched formed_local with_hint
  formed_local-IsWatched s h =
      local_form-IsWatched (find (is local_id) s.presets) (record s { active_preset = local_id }) h

  overlay-IsWatched :
      (title message : Text) (progress : Option Number) (local : Bool) (s : Session)
      → IsWatched s
      → IsWatched (show_overlay p title message progress local s)
  unfolding IsWatched show_overlay
  overlay-IsWatched title message progress local s h = h

  requested-IsWatched : (s : Session) → IsWatched s → IsWatched (requested p s)
  unfolding IsWatched
  requested-IsWatched s h = h

  select_local-IsWatched :
      (welcome : Bool) (s : Session) → IsWatched s → IsWatched (select_local p welcome s)
  unfolding select_local
  select_local-IsWatched welcome s h = fetch_status-IsWatched p choice _ (
      overlay-IsWatched _ _ none true _ (
        requested-IsWatched _ (
          welcomed-IsWatched welcome (codes "offline") (formed_local p s)
            (formed_local-IsWatched s h))))

  formed_online-IsWatched :
      (preset : Preset) (s : Session) → IsWatched s → IsWatched (formed_online p preset s)
  unfolding IsWatched formed_online
  formed_online-IsWatched preset s h = h

  select_online-IsWatched :
      (welcome : Bool) (preset : Preset) (s : Session)
      → IsWatched s
      → IsWatched (select_online p welcome preset s)
  unfolding select_online
  select_online-IsWatched welcome preset s h =
      await-IsWatched (previewing s.active_preset (settings_of s.form)) _ tt (
        overlay-IsWatched _ _ none false _ (
          welcomed-IsWatched welcome (codes "online") (formed_online p preset s)
            (formed_online-IsWatched preset s h)))

  select_preset-IsWatched :
      (welcome : Bool) (preset : Preset) (s : Session)
      → IsWatched s
      → IsWatched (select_preset p welcome preset s)
  unfolding select_preset
  select_preset-IsWatched welcome preset s h =
      either-IsWatched (is local_id preset) _ _ (select_local-IsWatched welcome s h)
        (select_online-IsWatched welcome preset s h)

  postal_order-IsWatched :
      (length : Option ℕ) (s : Session) → IsWatched s → IsWatched (postal_order p length s)
  unfolding IsWatched
  postal_order-IsWatched none s h = h
  postal_order-IsWatched (some n) s h = elim (Bool-cases (n == 0 || ltb 5 n)) [
    | inl e ↦ rw e h
    | inr e ↦ rw e (start_build-IsWatched p true n false false s (ground arith) (ground arith) h)
  ]

  preview_own-IsWatched : (s : Session) → IsWatched s → IsWatched (preview_own p s)
  unfolding preview_own
  preview_own-IsWatched s h = await-IsWatched previewing_own _ tt (
      overlay-IsWatched _ _ none false (with_hint (record s { active_preset = [] }))
        (unmarked-IsWatched s h))

  poll_when-IsWatched : (b : Bool) (s : Session) → IsWatched s → IsWatched (poll_when p b s)
  unfolding IsWatched
  poll_when-IsWatched true s (t, v, b) =
      fetch_status-IsWatched p poll (record s { timer = false }) ((λ q. cc), v, b)
  poll_when-IsWatched false s h = h

  step-IsWatched : (e : Event) (s : Session) → IsWatched s → IsWatched (step p e s)
  unfolding IsWatched step set_mode with_hint with_presets task_done order_done
  step-IsWatched (chosen welcome preset) s h = select_preset-IsWatched welcome preset s h
  step-IsWatched (typed form) s h = h
  step-IsWatched preview_clicked s h = preview_own-IsWatched s h
  step-IsWatched (presets_came presets tiles) s h = h
  step-IsWatched (filtered filter) s h = h
  step-IsWatched (menu_chosen menu) s h = h
  step-IsWatched (zooms_typed low high) s h = h
  step-IsWatched build_clicked s h =
      either-IsWatched s.view.build_disabled _ _ h
        (start_build-IsWatched p false 3 true true s (ground arith) (ground arith) h)
  step-IsWatched activate_clicked s h = fetch_status-IsWatched p button s h
  step-IsWatched poll_due s h = poll_when-IsWatched s.timer s h
  step-IsWatched (postal_clicked length) s h = postal_order-IsWatched length s h
  step-IsWatched (status_came reply) s h = status_came_when-IsWatched p s.waiting reply s h
  step-IsWatched (order_came i reply) s h =
      answer_order-IsWatched p (task_at i s.tasks) reply s (without_task i s) h
        (without_task-IsWatched i s h)
  step-IsWatched (applied i outcome) s h =
      finish_task-IsWatched p (task_at i s.tasks) outcome s (without_task i s) h
        (without_task-IsWatched i s h)
  step-IsWatched (clock_set now) s h = h
  step-IsWatched (mode_set tiles) s h = h

  runs-IsWatched : (events : List Event) (s : Session) → IsWatched s → IsWatched (run p events s)
  unfolding run
  runs-IsWatched [] s h = h
  runs-IsWatched (e ∷ rest) s h = runs-IsWatched rest (step p e s) (step-IsWatched e s h)

  page_start-IsWatched :
      (form : Form) (low high : Option ℤ) (now : Number)
      → IsWatched (page_start p form low high now)
  unfolding IsWatched page_start view_of view_at stage_of
  page_start-IsWatched form low high now = ((λ t. cc), (λ v. cc), tt)

  -- After any events since the page was loaded, a poll is due, or the panel of the local tiles shows
  -- a running build, only where the last state that was taken in is that of a running build; and
  -- every order under way asks for zooms between 5 and 14 in their order, and for a prefix of 1 to 5
  -- digits. Of the overlay over the map nothing is said.
  pub run-IsWatched :
      (form : Form) (low high : Option ℤ) (now : Number) (events : List Event)
      → IsWatched (run p events (page_start p form low high now))
  run-IsWatched form low high now events =
      runs-IsWatched events (page_start p form low high now)
        (page_start-IsWatched form low high now)
