-- ===== src/Operations/Tests.antt =====
-- Runs of the offline queue of cmd/web/app.js, and the theorems at concrete items.
use osmmini.Base.{
  ℕ, ◌≡◌, ◌⊎◌, inl, inr, refl, true, false, some, List, [], ◌∷◌, Text, codes, In, arith, err,
}
use osmmini.Operations.{
  Entry, damaged, queue_damaged, pending_operations, save_pending_operations, queue_operation,
  append_entry, Event, enqueue, begin, answer, step, begin_when, begin_from, start, answer_head,
  remove_sent, run,
}
use osmmini.Operations.Queue.{entries, IsQueue}
use osmmini.Operations.Transfer.{IsSession, run-IsSession, run-Kept}
use osmmini.Operations.Drain.{replicate, idle, run-replicate}

abbrev delivery : Entry
delivery = record { client_event_id = some (codes "a"); payload = codes "pod" }

abbrev repair : Entry
repair = record { client_event_id = some (codes "b"); payload = codes "maintenance" }

abbrev check : Entry
check = record { client_event_id = some (codes "c"); payload = codes "check" }

abbrev ids : ℕ → Text
ids n = n ∷ []

two-IsQueue : IsQueue (delivery ∷ repair ∷ [])
two-IsQueue = record { distinct = (refl, (refl, tt)); named = refl; bounded = omega arith }

two-IsSession : IsSession (idle (delivery ∷ repair ∷ []) [])
two-IsSession = record { queue = two-IsQueue; waiting = tt }

-- The second request fails, and an item comes between the two answers.
abbrev events : List Event
events =
    begin true ids true
    ∷ answer true true
    ∷ enqueue true check
    ∷ answer false true
    ∷ answer false true
    ∷ []

run-events :
    run (idle (delivery ∷ repair ∷ []) []) events ≡ idle (repair ∷ check ∷ []) (delivery ∷ [])
unfolding run step begin_when begin_from start answer_head remove_sent pending_operations
    save_pending_operations queue_operation append_entry
run-events = refl

queue_damaged_kept : queue_operation true check damaged ≡ err queue_damaged
unfolding queue_operation pending_operations
queue_damaged_kept = refl

run-IsSession_example : IsSession (run (idle (delivery ∷ repair ∷ []) []) events)
run-IsSession_example = run-IsSession (idle (delivery ∷ repair ∷ []) []) events two-IsSession

run-Kept_example :
    In repair (entries (run (idle (delivery ∷ repair ∷ []) []) events).stored)
    ⊎ In repair (run (idle (delivery ∷ repair ∷ []) []) events).delivered
run-Kept_example =
    run-Kept (idle (delivery ∷ repair ∷ []) []) events repair two-IsSession (inr (inl refl))

run-replicate_example :
    run (idle (delivery ∷ repair ∷ []) []) (begin true ids true ∷ replicate 3 (answer true true))
    ≡ idle [] (repair ∷ delivery ∷ [])
run-replicate_example = run-replicate (delivery ∷ repair ∷ []) [] ids two-IsQueue
