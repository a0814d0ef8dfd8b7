-- ===== src/Tiles/Session/Ended.antt =====
-- What ends a request or a task of the map sources of cmd/web/app.js keeps what always holds.
use osmmini.Base.{
  ℕ, ◌≡◌, sym, Bool, true, false, ◌==◌, Option, none, some, List, [], ◌∷◌, Text, All, Holds,
  if◌then◌else◌,
}
use osmmini.Tiles.{Source}
use osmmini.Tiles.Build.{Status, Platform, stage_of, style_settings}
use osmmini.Tiles.Build.View.{view_of, view_at}
use osmmini.Tiles.Session.{
  Origin, by_build, by_choice, by_button, Order, Task, previewing, previewing_own, painting,
  activating, ordering, Waiter, refused_order, Session, handle, with_hint, stop_polling, await,
  settled,
}
use osmmini.Tiles.Session.Finish.{
  Reply, answered, refused, thrown, Outcome, was_applied, was_left, was_thrown, remove_task,
  without_task, finish_preview, finish_own, finish_painting, finish_activation, activated_toast,
  sync_source_form,
}
use osmmini.Tiles.Session.Requests.{
  fetch_failed, idle_view, is_silent, or_blank, or_building, status_came_to, status_came_when,
  order_refused, finish_order,
}
use osmmini.Tiles.Session.Handlers.{finish_task, answer_order}
use osmmini.Tiles.Session.Kept.{
  IsWatched, IsBounded, All-append, handle-Follows, handle-IsWatched, build_failed-IsWatched,
  resume-IsWatched, fetch_status-IsWatched,
}

remove_task-All :
    (i : ℕ) (tasks : List Task) → All IsBounded tasks → All IsBounded (remove_task i tasks)
remove_task-All i [] h = h
remove_task-All ℕ.zero (t ∷ ts) h = h.1
remove_task-All (ℕ.suc i) (t ∷ ts) h = (h.0, remove_task-All i ts h.1)

pub without_task-IsWatched : (i : ℕ) (s : Session) → IsWatched s → IsWatched (without_task i s)
unfolding IsWatched
without_task-IsWatched i s (t, v, b) = (t, v, remove_task-All i s.tasks b)

pub await-IsWatched :
    (task : Task) (s : Session) → IsBounded task → IsWatched s → IsWatched (await task s)
unfolding IsWatched
await-IsWatched task s k (t, v, b) = (t, v, All-append IsBounded s.tasks _ b (k, tt))

pub either-IsWatched :
    (b : Bool) (s t : Session) → IsWatched s → IsWatched t → IsWatched (if b then s else t)
either-IsWatched true s t h k = h
either-IsWatched false s t h k = k

pub unmarked-IsWatched :
    (s : Session) → IsWatched s → IsWatched (with_hint (record s { active_preset = [] }))
unfolding IsWatched with_hint
unmarked-IsWatched s h = h

module _ (p : Platform) where
  idle_view-IsWatched :
      (b : Bool) (message : Text) (s : Session) → IsWatched s → IsWatched (idle_view p b message s)
  unfolding IsWatched view_of view_at stage_of
  idle_view-IsWatched true message s h = h
  idle_view-IsWatched false message s (t, v, b) = (t, λ e. cc, b)

  fetch_failed-IsWatched :
      (message : Text) (waiter : Waiter) (s : Session)
      → IsWatched s
      → IsWatched (fetch_failed p message waiter s)
  unfolding IsWatched
  fetch_failed-IsWatched message waiter s (t, v, b) =
      resume-IsWatched p waiter none _ tt
        (idle_view-IsWatched (is_silent p waiter) message (stop_polling s) ((λ e. cc), v, b))

  status_came_to-IsWatched :
      (waiter : Waiter) (reply : Reply) (s : Session)
      → IsWatched s
      → IsWatched (status_came_to p waiter reply s)
  unfolding IsWatched status_came_to
  status_came_to-IsWatched waiter (answered result) s h =
      resume-IsWatched p waiter result _ (came result) (handle-IsWatched p (or_blank p result) s h)
    where
      came : (r : Option Status) → Holds (λ status. status ≡ (handle p (or_blank p r) s).latest) r
      came none = tt
      came (some status) = sym (handle-Follows p status s h.2).1
  status_came_to-IsWatched waiter (refused code error message) s h =
      fetch_failed-IsWatched _ waiter s h
  status_came_to-IsWatched waiter (thrown message) s h = fetch_failed-IsWatched message waiter s h

  pub status_came_when-IsWatched :
      (waiting : Option Waiter) (reply : Reply) (s : Session)
      → IsWatched s
      → IsWatched (status_came_when p waiting reply s)
  status_came_when-IsWatched none reply s h = h
  status_came_when-IsWatched (some waiter) reply s h = status_came_to-IsWatched waiter reply s h

  order_refused-IsWatched :
      (auto : Bool) (code : ℕ) (message : Text) (s : Session)
      → IsWatched s
      → IsWatched (order_refused p auto code message s)
  unfolding IsWatched
  order_refused-IsWatched auto code message s h =
      either-IsWatched (code == 409) _ _
        (fetch_status-IsWatched p (refused_order message) (record s { auto_activate = auto }) h)
        (build_failed-IsWatched p message s h)

  finish_order-IsWatched :
      (order : Order) (reply : Reply) (s : Session)
      → IsWatched s
      → IsWatched (finish_order p order reply s)
  unfolding IsWatched finish_order
  finish_order-IsWatched order (answered result) s h =
      handle-IsWatched p (or_building p result) (record s { auto_activate = order.auto_activate }) h
  finish_order-IsWatched order (refused code error message) s h =
      order_refused-IsWatched order.auto_activate code _ s h
  finish_order-IsWatched order (thrown message) s h = build_failed-IsWatched p message s h

  finish_preview-IsWatched :
      (previous : Text) (tiles : Source) (outcome : Outcome) (s : Session)
      → IsWatched s
      → IsWatched (finish_preview previous tiles outcome s)
  unfolding IsWatched finish_preview with_hint
  finish_preview-IsWatched previous tiles was_applied s h = await-IsWatched painting s tt h
  finish_preview-IsWatched previous tiles was_left s h = h
  finish_preview-IsWatched previous tiles was_thrown s h = h

  finish_own-IsWatched :
      (outcome : Outcome) (s : Session) → IsWatched s → IsWatched (finish_own outcome s)
  unfolding IsWatched finish_own
  finish_own-IsWatched was_applied s h = await-IsWatched painting s tt h
  finish_own-IsWatched was_left s h = h
  finish_own-IsWatched was_thrown s h = h

  finish_painting-IsWatched :
      (outcome : Outcome) (s : Session) → IsWatched s → IsWatched (finish_painting outcome s)
  unfolding IsWatched finish_painting
  finish_painting-IsWatched was_applied s h = h
  finish_painting-IsWatched was_left s h = h
  finish_painting-IsWatched was_thrown s h = h

  activated_toast-IsWatched :
      (origin : Origin) (b : Bool) (s : Session)
      → IsWatched s
      → IsWatched (activated_toast origin b s)
  unfolding IsWatched
  activated_toast-IsWatched by_build true s h = h
  activated_toast-IsWatched by_build false s h = h
  activated_toast-IsWatched by_choice true s h = h
  activated_toast-IsWatched by_choice false s h = h
  activated_toast-IsWatched by_button true s h = h
  activated_toast-IsWatched by_button false s h = h

  finish_activation-IsWatched :
      (origin : Origin) (status : Status) (outcome : Outcome) (s : Session)
      → IsWatched s
      → IsWatched (finish_activation origin status outcome s)
  unfolding IsWatched finish_activation sync_source_form with_hint
  finish_activation-IsWatched origin status was_applied s h =
      activated_toast-IsWatched origin true (settled (sync_source_form (style_settings status) s)) h
  finish_activation-IsWatched origin status was_left s h =
      activated_toast-IsWatched origin false (settled s) h
  finish_activation-IsWatched origin status was_thrown s h =
      activated_toast-IsWatched origin false (settled s) h

  pub finish_task-IsWatched :
      (task : Option Task) (outcome : Outcome) (s rest : Session)
      → IsWatched s
      → IsWatched rest
      → IsWatched (finish_task p task outcome s rest)
  finish_task-IsWatched none outcome s rest h k = h
  finish_task-IsWatched (some (previewing previous tiles)) outcome s rest h k =
      finish_preview-IsWatched previous tiles outcome rest k
  finish_task-IsWatched (some previewing_own) outcome s rest h k =
      finish_own-IsWatched outcome rest k
  finish_task-IsWatched (some painting) outcome s rest h k =
      finish_painting-IsWatched outcome rest k
  finish_task-IsWatched (some (activating origin status)) outcome s rest h k =
      finish_activation-IsWatched origin status outcome rest k
  finish_task-IsWatched (some (ordering order)) outcome s rest h k = h

  pub answer_order-IsWatched :
      (task : Option Task) (reply : Reply) (s rest : Session)
      → IsWatched s
      → IsWatched rest
      → IsWatched (answer_order p task reply s rest)
  answer_order-IsWatched none reply s rest h k = h
  answer_order-IsWatched (some (previewing previous tiles)) reply s rest h k = h
  answer_order-IsWatched (some previewing_own) reply s rest h k = h
  answer_order-IsWatched (some painting) reply s rest h k = h
  answer_order-IsWatched (some (activating origin status)) reply s rest h k = h
  answer_order-IsWatched (some (ordering order)) reply s rest h k =
      finish_order-IsWatched order reply rest k
