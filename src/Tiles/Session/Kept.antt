-- ===== src/Tiles/Session/Kept.antt =====
-- What holds after any events of the choice of a map source and the building of local tiles in
-- cmd/web/app.js: when it polls, what it shows of a build, and which orders it sends.
use osmmini.Base.{
  ℕ, ◌≡◌, ◌≤◌, refl, ap, sym, ◌∙◌, Bool, true, false, ◌||◌, Option, none, some, List, [], ◌∷◌, ◌++◌,
  Text, length, All, Holds, Bool-cases, inl, inr, arith,
}
use osmmini.Base.Int.{ℤ, pos, ◌≤ℤ◌, ltb_ℤ}
use osmmini.Tiles.Build.{
  Stage, idle, building, ready, failed, Status, Platform, stage_of, zooms_from,
}
use osmmini.Tiles.Build.View.{view_of, view_at}
use osmmini.Tiles.Session.{
  Origin, by_build, by_choice, by_button, failed_load, auto_activated, announce, Order, Task,
  ordering, Waiter, poll, page, choice, button, refused_order, Session, open_builder, handle, shown,
  acted, activate, show_overlay, is_news,
}
use osmmini.Tiles.Session.Requests.{
  resume, fetch_status, fetch_when, start_build, order_with, build_failed, chosen_stage,
  button_stage, poll_stage, refused_stage, failure, preparing,
}

-- The zooms lie between 5 and 14, in their order; the prefix of postal codes has 1 to 5 digits.
abbrev pub IsOrder : Order → Type 0
IsOrder order =
    (pos 5 ≤ℤ order.zooms.0)
    × (order.zooms.0 ≤ℤ order.zooms.1)
    × (order.zooms.1 ≤ℤ pos 14)
    × (1 ≤ order.prefix_length)
    × (order.prefix_length ≤ 5)

abbrev pub IsBounded : Task → Type 0
IsBounded (ordering order) = IsOrder order
IsBounded task = Unit

-- A poll is due, or the panel shows a running build, only where the last state that was taken in is
-- that of a running build; and every order that is under way is one that the server takes. The overlay
-- is left out: it can outlive the build.
unfoldable pub IsWatched : Session → Type 0
IsWatched s =
    (s.timer ≡ true → stage_of s.latest ≡ building)
    × (s.view.stage ≡ building → stage_of s.latest ≡ building)
    × All IsBounded s.tasks

pub All-append :
    {A : Type 0} (P : A → Type 0) (xs ys : List A) → All P xs → All P ys → All P (xs ++ ys)
All-append P [] ys h k = k
All-append P (x ∷ xs) ys h k = (h.0, All-append P xs ys h.1 k)

abbrev Follows : Status → Session → Type 0
Follows status s = IsWatched s × (s.latest ≡ status)

module _ (p : Platform) where
  activate-Follows :
      (origin : Origin) (status latest : Status) (s : Session)
      → Follows latest s
      → Follows latest (activate p origin status s)
  unfolding IsWatched activate show_overlay
  activate-Follows origin status latest s ((t, v, h), e) =
      ((t, v, All-append IsBounded s.tasks _ h (tt, tt)), e)

  auto_activated-Follows :
      (b : Bool) (status : Status) (s : Session)
      → Follows status s
      → Follows status (auto_activated p b status s)
  unfolding IsWatched
  auto_activated-Follows true status s h =
      activate-Follows by_build status status (record s { auto_activate = false }) h
  auto_activated-Follows false status s h = h

  announce-Follows :
      (b : Bool) (status : Status) (s : Session)
      → Follows status s
      → Follows status (announce p b status s)
  unfolding IsWatched
  announce-Follows true status s h = h
  announce-Follows false status s h = h

  failed_load-Follows :
      (b : Bool) (status : Status) (s : Session)
      → Follows status s
      → Follows status (failed_load p b s)
  unfolding IsWatched
  failed_load-Follows true status s h = h
  failed_load-Follows false status s h = h

  acted-Follows :
      (stage : Stage) (status : Status) (s : Session)
      → stage_of status ≡ stage
      → s.latest ≡ status
      → (s.view.stage ≡ building → stage_of s.latest ≡ building)
      → All IsBounded s.tasks
      → Follows status (acted p stage status s)
  unfolding IsWatched acted
  acted-Follows building status s e l v h = ((λ t. ap stage_of l ∙ e, v, h), l)
  acted-Follows idle status s e l v h = ((λ t. cc, v, h), l)
  acted-Follows failed status s e l v h =
      failed_load-Follows s.load_requested status _ ((λ t. cc, v, h), l)
  acted-Follows ready status s e l v h =
      announce-Follows (is_news p status s.announced) status _
        (auto_activated-Follows s.auto_activate status _ ((λ t. cc, v, h), l))

  -- Whatever state comes, it is the last one then.
  pub handle-Follows :
      (status : Status) (s : Session) → All IsBounded s.tasks → Follows status (handle p status s)
  unfolding handle shown view_of view_at
  handle-Follows status s h =
      acted-Follows (stage_of status) status (shown p (stage_of status) status s) refl refl (λ v. v)
        h

  pub handle-IsWatched :
      (status : Status) (s : Session) → IsWatched s → IsWatched (handle p status s)
  unfolding IsWatched
  handle-IsWatched status s (t, v, h) = (handle-Follows status s h).0

  zooms_from-In :
      (low high : Option ℤ)
      → Holds (λ z. (pos 5 ≤ℤ z.0) × (z.0 ≤ℤ z.1) × (z.1 ≤ℤ pos 14)) (zooms_from low high)
  unfolding zooms_from
  zooms_from-In none high = tt
  zooms_from-In (some low) none = tt
  zooms_from-In (some low) (some high) =
      elim (Bool-cases (ltb_ℤ low (pos 5) || (ltb_ℤ (pos 14) high || ltb_ℤ high low))) [
        | inl e ↦ rw e tt
        | inr e ↦ rw e (ground arith, ground arith, ground arith)
      ]

  order_with-IsWatched :
      (postal : Bool) (length : ℕ) (auto cover : Bool) (zooms : Option (ℤ × ℤ)) (s : Session)
      → Holds (λ z. (pos 5 ≤ℤ z.0) × (z.0 ≤ℤ z.1) × (z.1 ≤ℤ pos 14)) zooms
      → 1 ≤ length
      → length ≤ 5
      → IsWatched s
      → IsWatched (order_with p postal length auto cover zooms s)
  unfolding IsWatched
  order_with-IsWatched postal length auto cover none s z least most h = h
  order_with-IsWatched postal length auto cover (some zooms) s z least most h =
      let (t, v, b) = handle-IsWatched preparing (record s { load_requested = cover }) h in
      (t, v, All-append IsBounded _ _ b ((z.0, z.1, z.2, least, most), tt))

  pub start_build-IsWatched :
      (postal : Bool) (length : ℕ) (auto cover : Bool) (s : Session)
      → 1 ≤ length
      → length ≤ 5
      → IsWatched s
      → IsWatched (start_build p postal length auto cover s)
  unfolding start_build
  start_build-IsWatched postal length auto cover s least most h =
      order_with-IsWatched postal length auto cover (zooms_from s.min_zoom s.max_zoom) s
        (zooms_from-In s.min_zoom s.max_zoom) least most h

  pub activate-IsWatched :
      (origin : Origin) (status : Status) (s : Session)
      → IsWatched s
      → IsWatched (activate p origin status s)
  activate-IsWatched origin status s h = (activate-Follows origin status s.latest s (h, refl)).0

  pub build_failed-IsWatched :
      (message : Text) (s : Session) → IsWatched s → IsWatched (build_failed p message s)
  unfolding build_failed IsWatched
  build_failed-IsWatched message s h =
      handle-IsWatched (failure p message)
        (record s { load_requested = false; overlay = none; auto_activate = false }) h

  chosen_stage-IsWatched :
      (stage : Stage) (status : Status) (s : Session)
      → IsWatched s
      → IsWatched (chosen_stage p stage status s)
  unfolding IsWatched
  chosen_stage-IsWatched ready status s h = activate-IsWatched by_choice status s h
  chosen_stage-IsWatched building status s h = h
  chosen_stage-IsWatched idle status s h =
      start_build-IsWatched false 3 true true (open_builder s) (ground arith) (ground arith) h
  chosen_stage-IsWatched failed status s h =
      start_build-IsWatched false 3 true true (open_builder s) (ground arith) (ground arith) h

  button_stage-IsWatched :
      (stage : Stage) (status : Status) (s : Session)
      → IsWatched s
      → IsWatched (button_stage p stage status s)
  button_stage-IsWatched ready status s h = activate-IsWatched by_button status s h
  button_stage-IsWatched building status s h = h
  button_stage-IsWatched idle status s h = h
  button_stage-IsWatched failed status s h = h

  refused_stage-IsWatched :
      (stage : Stage) (s : Session) → IsWatched s → IsWatched (refused_stage p stage s)
  unfolding IsWatched
  refused_stage-IsWatched building s h = h
  refused_stage-IsWatched ready s h = h
  refused_stage-IsWatched idle s h = h
  refused_stage-IsWatched failed s h = h

  poll_stage-IsWatched :
      (stage : Stage) (s : Session)
      → stage_of s.latest ≡ stage
      → IsWatched s
      → IsWatched (poll_stage p stage s)
  unfolding IsWatched
  poll_stage-IsWatched building s e (t, v, b) = (λ _. e, v, b)
  poll_stage-IsWatched ready s e h = h
  poll_stage-IsWatched idle s e h = h
  poll_stage-IsWatched failed s e h = h

  -- Who asks goes on with no state, or with the last one.
  pub resume-IsWatched :
      (waiter : Waiter) (result : Option Status) (s : Session)
      → Holds (λ status. status ≡ s.latest) result
      → IsWatched s
      → IsWatched (resume p waiter result s)
  unfolding resume IsWatched
  resume-IsWatched poll none s e h = h
  resume-IsWatched poll (some status) s e h =
      poll_stage-IsWatched (stage_of status) s (ap stage_of (sym e)) h
  resume-IsWatched page result s e h = h
  resume-IsWatched choice none s e h = h
  resume-IsWatched choice (some status) s e h = chosen_stage-IsWatched (stage_of status) status s h
  resume-IsWatched button none s e h = h
  resume-IsWatched button (some status) s e h = button_stage-IsWatched (stage_of status) status s h
  resume-IsWatched (refused_order message) none s e h = build_failed-IsWatched message s h
  resume-IsWatched (refused_order message) (some status) s e h =
      refused_stage-IsWatched (stage_of status) s h

  fetch_when-IsWatched :
      (other : Option Waiter) (waiter : Waiter) (s : Session)
      → IsWatched s
      → IsWatched (fetch_when p other waiter s)
  unfolding IsWatched
  fetch_when-IsWatched none waiter s h = h
  fetch_when-IsWatched (some other) waiter s h = resume-IsWatched waiter (some s.latest) s refl h

  pub fetch_status-IsWatched :
      (waiter : Waiter) (s : Session) → IsWatched s → IsWatched (fetch_status p waiter s)
  unfolding fetch_status
  fetch_status-IsWatched waiter s h = fetch_when-IsWatched s.waiting waiter s h
