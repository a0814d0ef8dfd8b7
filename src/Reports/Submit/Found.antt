-- ===== src/Reports/Submit/Found.antt =====
-- Where a report of cmd/web/app.js is after it was submitted.
use osmmini.Base.{
  ◌≡◌, refl, ◌⊎◌, inl, inr, Bool, true, false, not, ◌||◌, List, ◌∷◌, Text, Bool-cases, leb, ltb,
  length, take, if◌then◌else◌, Result, ok, err, ◌>>=◌, Ensures, Ensures-bind, Ensures-of_eq,
}
use osmmini.Operations.{Stored, Entry, queue_operation, same_event}
use osmmini.Operations.Calls.{Queued, queue_operation-Ensures}
use osmmini.Reports.Form.{Report}
use osmmini.Reports.Log.{
  Log, records, Created, local_operations, save_local_operations, put_first, created_of, log_limit,
  no_room, submit_local,
}
use osmmini.Reports.Submit.{
  Reporting, World, Answer, created, refused, unreachable, saved, failed, not_queued, submit,
  recover, entry_of, queued_as, logged, answered,
}

-- The log begins with the report, and holds what it held before.
InLog : Report → Log → Log → Type 0
InLog r before after =
    (c : Created) × (rs : List Created) × (c.report ≡ r)
    × (local_operations before ≡ ok rs)
    × (after ≡ records (c ∷ rs))

module _ (encode : Report → Text) where
  -- An item of its event ID is in the queue, and all that was there before; nothing else is changed
  -- but the message.
  InQueue : Report → Reporting → Reporting → Type 0
  InQueue r s t =
      Queued s.queue (entry_of encode r) t.queue
      × (t.log ≡ s.log)
      × (t.recent ≡ s.recent)
      × (t.place ≡ s.place)

  -- Nothing is changed but the message, which says so.
  IsRefused : Reporting → Reporting → Type 0
  IsRefused s t =
      (t.log ≡ s.log)
      × (t.queue ≡ s.queue)
      × (t.recent ≡ s.recent)
      × (t.place ≡ s.place)
      × ((t.message ≡ failed) ⊎ (t.message ≡ not_queued))

  IsSent : World → Reporting → Reporting → Type 0
  IsSent w s t =
      (c : Created) × (w.answer ≡ created c)
      × (t.log ≡ s.log)
      × (t.queue ≡ s.queue)
      × (t.recent ≡ take 100 (c ∷ s.recent))
      × (t.message ≡ saved)

  unfoldable pub IsFound : Bool → World → Report → Reporting → Reporting → Type 0
  unfolding InLog InQueue IsRefused IsSent
  IsFound true w r s t =
      (InLog r s.log t.log × (t.queue ≡ s.queue) × (t.message ≡ saved))
      ⊎ (InQueue r s t ⊎ IsRefused s t)
  IsFound false w r s t = IsSent w s t ⊎ (InQueue r s t ⊎ IsRefused s t)

  queued_as-found :
      (r : Report) (s : Reporting) (result : Result osmmini.Operations.Refusal Stored)
      → Ensures (Queued s.queue (entry_of encode r)) result
      → InQueue r s (queued_as encode (entry_of encode r) result s)
        ⊎ IsRefused s (queued_as encode (entry_of encode r) result s)
  unfolding InQueue IsRefused
  queued_as-found r s (ok queue) h = inl (h, refl, refl, refl)
  queued_as-found r s (err e) h = inr (refl, refl, refl, refl, inr refl)

  recover-found :
      (w : World) (network : Bool) (r : Report) (s : Reporting)
      → InQueue r s (recover encode w network r s) ⊎ IsRefused s (recover encode w network r s)
  unfolding recover InQueue IsRefused
  recover-found w network r s = elim (Bool-cases (network || not w.on_line)) [
    | inl e ↦ rw e (
        queued_as-found r s (queue_operation w.queue_room (entry_of encode r) s.queue)
          (queue_operation-Ensures w.queue_room (entry_of encode r) s.queue))
    | inr e ↦ rw e (inr (refl, refl, refl, refl, inl refl))
  ]

  save-eq :
      (room : Bool) (rs : List Created)
      → Ensures (λ log. log ≡ records rs) (save_local_operations room rs)
  unfolding save_local_operations
  save-eq room rs = elim (Bool-cases (ltb log_limit (length rs))) [
    | inl e ↦ rw e tt
    | inr e ↦ rw e (in_room room)
  ]
    where
      in_room :
          (b : Bool)
          → Ensures (λ log. log ≡ records rs) (if b then ok (records rs) else err no_room)
      in_room true = refl
      in_room false = tt

  put_first-eq :
      (room : Bool) (c : Created) (rs : List Created)
      → Ensures (λ log. log ≡ records (c ∷ rs)) (put_first room c rs)
  put_first-eq room c rs = elim (Bool-cases (leb log_limit (length rs))) [
    | inl e ↦ rw e tt
    | inr e ↦ rw e (save-eq room (c ∷ rs))
  ]

  submit_local-InLog :
      (room : Bool) (now : Text) (r : Report) (log : Log)
      → Ensures (λ d. InLog r log d.0) (submit_local room now r log)
  unfolding submit_local InLog
  submit_local-InLog room now r log =
      let c = created_of r now in
      Ensures-bind (λ rs. local_operations log ≡ ok rs) (λ d. InLog r log d.0)
        (local_operations log) (λ rs. put_first room c rs >>= λ next. ok (next, c))
        (Ensures-of_eq _ (local_operations log) (λ rs e. e))
        λ rs e.
          Ensures-bind (λ next. next ≡ records (c ∷ rs)) (λ d. InLog r log d.0)
            (put_first room c rs) (λ next. ok (next, c)) (put_first-eq room c rs)
            λ next q. (c, rs, refl, e, q)

  logged-IsFound :
      (w : World) (r : Report) (s : Reporting)
      (result : Result osmmini.Reports.Log.Refusal (Log × Created))
      → Ensures (λ d. InLog r s.log d.0) result
      → IsFound true w r s (logged encode w r result s)
  unfolding IsFound
  logged-IsFound w r s (ok done) h = inl (h, refl, refl)
  logged-IsFound w r s (err e) h = inr (recover-found w false r s)

  answered-IsFound :
      (w : World) (r : Report) (s : Reporting) (a : Answer)
      → w.answer ≡ a
      → IsFound false w r s (answered encode w r a s)
  unfolding IsFound IsSent
  answered-IsFound w r s (created c) e = inl (c, e, refl, refl, refl, refl)
  answered-IsFound w r s refused e = inr (recover-found w false r s)
  answered-IsFound w r s unreachable e = inr (recover-found w true r s)

  -- After a report was submitted, it stands first in the log, before what was there, or the server has
  -- answered with the record it made; or an item of its event ID is in the queue, with all that was
  -- there before and the queue in order if it was; or else nothing has changed but the message, which
  -- says that it failed, and the position is kept for another try.
  pub submit-IsFound :
      (local_only : Bool) (w : World) (r : Report) (s : Reporting)
      → IsFound local_only w r s (submit encode local_only w (ok r) s)
  unfolding submit
  submit-IsFound true w r s =
      logged-IsFound w r s (submit_local w.log_room w.now r s.log)
        (submit_local-InLog w.log_room w.now r s.log)
  submit-IsFound false w r s = answered-IsFound w r s w.answer refl
