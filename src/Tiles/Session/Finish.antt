-- ===== src/Tiles/Session/Finish.antt =====
-- How what is awaited ends, in the handlers of cmd/web/app.js that choose a map source.
use osmmini.Base.{ℕ, zero, suc, Bool, true, false, Option, none, some, List, [], ◌∷◌, Text, codes}
use osmmini.Tiles.{Source, form_of, local_id}
use osmmini.Tiles.Build.{Status, style_settings}
use osmmini.Tiles.Session.{
  Origin, by_build, Task, painting, info, success, error_tone, Session, toast, await, hide_overlay,
  settled, with_hint,
}

-- How a request for the state of the build, or an order, came out: `null` is `none`, and so is the
-- body of an order's answer that is no JSON.
pub data Reply : Type 0 where
  answered : Option Status → Reply
  refused : ℕ → Text → Text → Reply
  thrown : Text → Reply

-- How `applyTileLayer` came out: with true, with false, or with an error.
pub data Outcome : Type 0 where
  was_applied was_left was_thrown : Outcome

abbrev pub remove_task : ℕ → List Task → List Task
remove_task i [] = []
remove_task zero (t ∷ ts) = ts
remove_task (suc i) (t ∷ ts) = t ∷ remove_task i ts

abbrev pub task_at : ℕ → List Task → Option Task
task_at i [] = none
task_at zero (t ∷ ts) = some t
task_at (suc i) (t ∷ ts) = task_at i ts

abbrev pub without_task : ℕ → Session → Session
without_task i s = record s { tasks = remove_task i s.tasks }

-- `syncTinyTilesSourceForm`
unfoldable pub sync_source_form : Source → Session → Session
unfolding form_of with_hint
sync_source_form tiles s = with_hint (record s { form = form_of tiles; active_preset = local_id })

-- The end of `activateTinyTilesMap` and what its caller says then.
abbrev pub activated_toast : Origin → Bool → Session → Session
activated_toast by_build true s =
    toast success
      (codes
        "Offline-Karte ist bereit und wird angezeigt. Zum dauerhaften Übernehmen bitte speichern.")
      s
activated_toast by_build false s =
    toast error_tone (codes "Offline-Karte ist bereit, konnte aber nicht angezeigt werden.") s
activated_toast origin true s =
    toast success
      (codes "Offline-Karte wird angezeigt. Zum dauerhaften Übernehmen bitte speichern.") s
activated_toast origin false s =
    toast error_tone (codes "Offline-Karte konnte nicht angezeigt werden.") s

unfoldable pub finish_activation : Origin → Status → Outcome → Session → Session
unfolding sync_source_form style_settings
finish_activation origin status was_applied s =
    activated_toast origin true (settled (sync_source_form (style_settings status) s))
finish_activation origin status outcome s = activated_toast origin false (settled s)

-- The rest of `selectTilePreset` once the preview is there, and once it is painted.
abbrev pub not_activated : Session → Session
not_activated s =
    hide_overlay (toast error_tone (codes "Kartenquelle konnte nicht aktiviert werden.") s)

unfoldable pub finish_preview : Text → Source → Outcome → Session → Session
unfolding with_hint form_of
finish_preview previous tiles was_applied s = await painting s
finish_preview previous tiles was_left s =
    not_activated (with_hint (record s { active_preset = previous; form = form_of tiles }))
finish_preview previous tiles was_thrown s = not_activated s

unfoldable pub finish_own : Outcome → Session → Session
finish_own was_applied s = await painting s
finish_own outcome s = not_activated s

unfoldable pub finish_painting : Outcome → Session → Session
finish_painting was_thrown s = not_activated s
finish_painting outcome s =
    hide_overlay (toast info (codes "Kartenvorschau geladen – zum Behalten bitte speichern.") s)

abbrev pub welcomed : Bool → Text → Session → Session
welcomed true text s = record s { welcome = some text }
welcomed false text s = s
