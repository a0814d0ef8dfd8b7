-- ===== src/Tiles/Session/Undone.antt =====
-- A map source of cmd/web/app.js that is chosen, and what becomes of it.
use osmmini.Base.{
  ℕ, zero, suc, ◌≡◌, ◌≢◌, refl, ap, subst, if◌then◌else◌, sym, Bool, true, false, Option, none,
  some, List, [], ◌∷◌, ◌++◌, Text, codes, length, trim-trim,
}
use osmmini.Tiles.{
  Preset, Form, or_text, local_id, is, form_of, settings_of, zoom_setting, zoom_field,
}
use osmmini.Tiles.Build.{Platform}
use osmmini.Tiles.Session.{Session, Task, previewing, painting, with_hint, show_overlay}
use osmmini.Tiles.Session.Finish.{
  Outcome, was_applied, was_left, was_thrown, task_at, remove_task, finish_preview,
}
use osmmini.Tiles.Session.Handlers.{select_preset, select_online, formed_online, task_done}

zoom-zoom : (z : Option ℕ) → zoom_setting (zoom_field (zoom_setting z)) ≡ zoom_setting z
zoom-zoom none = refl
zoom-zoom (some zero) = refl
zoom-zoom (some (suc n)) = refl

or_text-id : (s t : Text) → s ≢ [] → or_text s t ≡ s
or_text-id [] t h = absurd (h refl)
or_text-id (c ∷ s) t h = refl

-- The form that is filled from its own settings has the same settings.
settings_of-form_of :
    (form : Form) → form.map_type ≢ [] → settings_of (form_of (settings_of form)) ≡ settings_of form
unfolding settings_of form_of
settings_of-form_of form h =
    rw
      (
        or_text-id form.map_type (codes "raster") h,
        trim-trim form.upstream,
        trim-trim form.style_url,
        trim-trim form.wms_layers,
        zoom-zoom form.max_zoom,
      )
      refl

task_at-last : (tasks : List Task) (t : Task) → task_at (length tasks) (tasks ++ t ∷ []) ≡ some t
task_at-last [] t = refl
task_at-last (u ∷ tasks) t = task_at-last tasks t

remove_task-last :
    (tasks : List Task) (t : Task) → remove_task (length tasks) (tasks ++ t ∷ []) ≡ tasks
remove_task-last [] t = refl
remove_task-last (u ∷ tasks) t = ap (◌∷◌ u) (remove_task-last tasks t)

if_false : {A : Type 0} (b : Bool) (x y : A) → b ≡ false → (if b then x else y) ≡ y
if_false true x y e = cc
if_false false x y e = refl

module _ (p : Platform) where
  -- A preset is chosen, and the next that happens is that `applyTileLayer` comes out in this way.
  abbrev pub chosen_then : Outcome → Bool → Preset → Session → Session
  chosen_then outcome welcome preset s =
      task_done p (length s.tasks) outcome (select_preset p welcome preset s)

  -- Answered with true, the map is painted next; answered with false, the selection is taken back;
  -- and after an error the selection stays.
  abbrev pub IsAfter : Outcome → Preset → Session → Session → Type 0
  IsAfter was_applied preset before after =
      (after.active_preset ≡ preset.id)
      × (after.form ≡ form_of preset.source)
      × (after.tasks ≡ before.tasks ++ painting ∷ [])
  IsAfter was_left preset before after =
      (after.active_preset ≡ before.active_preset)
      × (settings_of after.form ≡ settings_of before.form)
      × (after.tasks ≡ before.tasks)
      × (after.overlay ≡ none)
  IsAfter was_thrown preset before after =
      (after.active_preset ≡ preset.id)
      × (after.form ≡ form_of preset.source)
      × (after.tasks ≡ before.tasks)
      × (after.overlay ≡ none)

  select_preset-select_online :
      (welcome : Bool) (preset : Preset) (s : Session)
      → is local_id preset ≡ false
      → select_preset p welcome preset s ≡ select_online p welcome preset s
  unfolding select_preset
  select_preset-select_online welcome preset s e = if_false (is local_id preset) _ _ e

  select_online-IsAfter :
      (outcome : Outcome) (welcome : Bool) (preset : Preset) (s : Session)
      → s.form.map_type ≢ []
      → IsAfter outcome preset s
          (task_done p (length s.tasks) outcome (select_online p welcome preset s))
  unfolding task_done select_online finish_preview formed_online show_overlay with_hint
  select_online-IsAfter was_applied true preset s h =
      rw
        (
          task_at-last s.tasks (previewing s.active_preset (settings_of s.form)),
          remove_task-last s.tasks (previewing s.active_preset (settings_of s.form)),
        )
        (refl, refl, refl)
  select_online-IsAfter was_applied false preset s h =
      rw
        (
          task_at-last s.tasks (previewing s.active_preset (settings_of s.form)),
          remove_task-last s.tasks (previewing s.active_preset (settings_of s.form)),
        )
        (refl, refl, refl)
  select_online-IsAfter was_left true preset s h =
      rw
        (
          task_at-last s.tasks (previewing s.active_preset (settings_of s.form)),
          remove_task-last s.tasks (previewing s.active_preset (settings_of s.form)),
        )
        (refl, settings_of-form_of s.form h, refl, refl)
  select_online-IsAfter was_left false preset s h =
      rw
        (
          task_at-last s.tasks (previewing s.active_preset (settings_of s.form)),
          remove_task-last s.tasks (previewing s.active_preset (settings_of s.form)),
        )
        (refl, settings_of-form_of s.form h, refl, refl)
  select_online-IsAfter was_thrown true preset s h =
      rw
        (
          task_at-last s.tasks (previewing s.active_preset (settings_of s.form)),
          remove_task-last s.tasks (previewing s.active_preset (settings_of s.form)),
        )
        (refl, refl, refl, refl)
  select_online-IsAfter was_thrown false preset s h =
      rw
        (
          task_at-last s.tasks (previewing s.active_preset (settings_of s.form)),
          remove_task-last s.tasks (previewing s.active_preset (settings_of s.form)),
        )
        (refl, refl, refl, refl)

  -- Where a preset that is not the local map is chosen, a type stands in the form, and the next event
  -- is that `applyTileLayer` comes out: with false, the preset that was active is active again and the
  -- form has the settings that it had; with an error, the chosen preset stays active and its source
  -- stays in the form. In both cases nothing is awaited that was not before, and the overlay is gone.
  -- With true, the preset and its source stay as well, and the painting of the map is awaited.
  pub chosen_then-IsAfter :
      (outcome : Outcome) (welcome : Bool) (preset : Preset) (s : Session)
      → is local_id preset ≡ false
      → s.form.map_type ≢ []
      → IsAfter outcome preset s (chosen_then outcome welcome preset s)
  chosen_then-IsAfter outcome welcome preset s e h =
      subst (λ t. IsAfter outcome preset s (task_done p (length s.tasks) outcome t))
        (sym (select_preset-select_online welcome preset s e))
        (select_online-IsAfter outcome welcome preset s h)
