-- ===== src/Tiles/Session/Twice.antt =====
-- A state of the build that `handleTinyTilesStatus` of cmd/web/app.js takes in twice.
use osmmini.Base.{
  ◌≡◌, refl, Bool, true, false, not, ◌&&◌, is_nil, find, text_eq, text_eq_refl, if◌then◌else◌,
  Bool-cases, inl, inr, Option, some,
}
use osmmini.Base.Int.{ℤ}
use osmmini.Json.Numbers.{Number, whole, between, nan, infinite}
use osmmini.Tiles.{local_id, is}
use osmmini.Tiles.Build.{Stage, idle, building, ready, failed, Status, Platform, stage_of}
use osmmini.Tiles.Build.View.{view_of}
use osmmini.Tiles.Session.{
  Session, handle, shown, acted, activate, show_overlay, auto_activated, announce, is_news,
  stop_polling, zoom_shown, filled, whole_part, building_overlay, hint_of,
}

module _ {A : Type 0} where
  if_twice : (b : Bool) (x y : A) → (if b then x else if b then x else y) ≡ (if b then x else y)
  if_twice true x y = refl
  if_twice false x y = refl

and_false : (b : Bool) → (b && false) ≡ false
and_false true = refl
and_false false = refl

module _ (p : Platform) where
  zoom_shown_twice :
      (stage : Stage) (status : Status) (zoom : Number) (old : Option ℤ)
      → zoom_shown p stage status zoom (zoom_shown p stage status zoom old)
        ≡ zoom_shown p stage status zoom old
  zoom_shown_twice building status zoom old = refl
  zoom_shown_twice idle status zoom old = refl
  zoom_shown_twice failed status zoom old = refl
  zoom_shown_twice ready status zoom old = filled_twice status.min_zoom status.max_zoom
    where
      filled_twice :
          (low high : Number)
          → filled p ready low high
              (whole_part p zoom)
              (filled p ready low high (whole_part p zoom) old)
            ≡ filled p ready low high (whole_part p zoom) old
      filled_twice (whole i) (whole j) = refl
      filled_twice (whole i) (between j f) = refl
      filled_twice (whole i) nan = refl
      filled_twice (whole i) (infinite b) = refl
      filled_twice (between i f) high = refl
      filled_twice nan high = refl
      filled_twice (infinite b) high = refl

  hint_twice :
      (status : Status) (s : Session)
      → (if text_eq s.active_preset local_id
          then hint_of (find (is s.active_preset) s.presets) status
          else if text_eq s.active_preset local_id
          then hint_of (find (is s.active_preset) s.presets) status
          else s.hint)
        ≡ (if text_eq s.active_preset local_id
            then hint_of (find (is s.active_preset) s.presets) status
            else s.hint)
  hint_twice status s = if_twice (text_eq s.active_preset local_id) _ s.hint

  no_news : (status : Status) → is_news p status status.territory_layer ≡ false
  no_news status =
      rw (text_eq_refl status.territory_layer) (and_false (not (is_nil status.territory_layer)))

  abbrev settle : Bool → Bool → Status → Session → Session
  settle auto news status s = announce p news status (auto_activated p auto status (stop_polling s))

  -- The time is another one, and what is shown is that of this time.
  abbrev pub later : Number → Session → Session
  later now s = record s { clock = now }

  abbrev pub shown_at : Number → Status → Session → Session
  shown_at now status s = record s { clock = now; view = view_of p now status }

  settle-shown :
      (auto news : Bool) (status : Status) (now : Number) (s : Session)
      → s.auto_activate ≡ auto
      → is_news p status s.announced ≡ news
      → acted p ready status
          (shown p ready status (later now (settle auto news status (shown p ready status s))))
        ≡ shown_at now status (settle auto news status (shown p ready status s))
  unfolding acted shown activate show_overlay
  settle-shown true true status now s e n =
      rw
        (
          no_news status,
          hint_twice status s,
          zoom_shown_twice ready status status.min_zoom s.min_zoom,
          zoom_shown_twice ready status status.max_zoom s.max_zoom,
        )
        refl
  settle-shown true false status now s e n =
      rw
        (
          n,
          hint_twice status s,
          zoom_shown_twice ready status status.min_zoom s.min_zoom,
          zoom_shown_twice ready status status.max_zoom s.max_zoom,
        )
        refl
  settle-shown false true status now s e n =
      rw
        (
          no_news status,
          e,
          and_false s.load_requested,
          hint_twice status s,
          zoom_shown_twice ready status status.min_zoom s.min_zoom,
          zoom_shown_twice ready status status.max_zoom s.max_zoom,
        )
        refl
  settle-shown false false status now s e n =
      rw
        (
          n,
          e,
          and_false s.load_requested,
          hint_twice status s,
          zoom_shown_twice ready status status.min_zoom s.min_zoom,
          zoom_shown_twice ready status status.max_zoom s.max_zoom,
        )
        refl

  acted-shown :
      (stage : Stage) (status : Status) (now : Number) (s : Session)
      → acted p stage status
          (shown p stage status (later now (acted p stage status (shown p stage status s))))
        ≡ shown_at now status (acted p stage status (shown p stage status s))
  unfolding acted shown
  acted-shown building status now s =
      rw
        (
          zoom_shown_twice building status status.min_zoom s.min_zoom,
          if_twice (s.load_requested && true) (some (building_overlay p status)) s.overlay,
          hint_twice status s,
        )
        refl
  acted-shown idle status now s = rw (and_false s.load_requested, hint_twice status s) refl
  acted-shown failed status now s = elim (Bool-cases s.load_requested) [
    | inl e ↦ rw (e, hint_twice status s) refl
    | inr e ↦ rw (e, hint_twice status s) refl
  ]
  acted-shown ready status now s =
      settle-shown s.auto_activate (is_news p status s.announced) status now s refl refl

  -- To take in a state of the build once more, with nothing but time gone by since it was taken in,
  -- only brings the panel that shows it to this time: the map is not activated again, the layer is
  -- neither announced nor loaded again, and nothing else changes.
  pub handle-handle :
      (status : Status) (now : Number) (s : Session)
      → handle p status (later now (handle p status s)) ≡ shown_at now status (handle p status s)
  unfolding handle
  handle-handle status now s = acted-shown (stage_of status) status now s
