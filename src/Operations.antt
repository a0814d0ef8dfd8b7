-- ===== src/Operations.antt =====
-- The offline queue of field reports in cmd/web/app.js: `pendingOperations`, `savePendingOperations`,
-- `queueOperation`, `flushPendingOperations`, and the browser's own log. The browser's storage,
-- requests and random IDs belong to the platform: an event says how each of them came out.
pub mod Queue
pub mod Calls
pub mod Transfer
pub mod Drain
mod Tests
use osmmini.Base.{
  ℕ, suc, Bool, true, false, ◌||◌, ◌&&◌, not, Option, none, some, List, [], ◌∷◌, ◌++◌, Text,
  optional_eq, length, any, keep, is_nil, ltb, leb, if◌then◌else◌, Result, ok, err, ◌>>=◌,
}

-- What `pendingOperations` and `queueOperation` throw.
pub data Refusal : Type 0 where
  queue_damaged queue_full no_event_id no_room : Refusal

-- An item of the queue. `none` stands for an ID that is missing or empty; the rest of the report is
-- only passed on.
pub record Entry : Type 0 where
  pub client_event_id : Option Text
  pub payload : Text

-- What is stored under a key: nothing, a text that holds no array, or an array.
pub data Stored : Type 0 where
  missing damaged : Stored
  holds : List Entry → Stored

abbrev pub queue_limit : ℕ
queue_limit = 100

-- `pendingOperations`
unfoldable pub pending_operations : Stored → Result Refusal (List Entry)
pending_operations missing = ok []
pending_operations damaged = err queue_damaged
pending_operations (holds q) = ok q

-- `savePendingOperations`, where the storage has room or not.
unfoldable pub save_pending_operations : Bool → List Entry → Result Refusal Stored
save_pending_operations room q =
    if ltb queue_limit (length q)
    then err queue_full
    else if room
    then ok (holds q)
    else err no_room

abbrev pub same_event : Entry → Entry → Bool
same_event a b = optional_eq a.client_event_id b.client_event_id

abbrev pub has_id : Option Text → Bool
has_id none = false
has_id (some t) = true

-- What follows the two early exits of `queueOperation`.
unfoldable pub append_entry : Bool → Entry → List Entry → Result Refusal Stored
append_entry room r q =
    if leb queue_limit (length q)
    then err queue_full
    else save_pending_operations room (q ++ r ∷ [])

-- `queueOperation`
unfoldable pub queue_operation : Bool → Entry → Stored → Result Refusal Stored
unfolding append_entry
queue_operation room r st = do
  q ← pending_operations st
  if not (has_id r.client_event_id)
      then err no_event_id
      else if any (λ i. same_event i r) q
      then ok st
      else append_entry room r q

-- Old items get an ID before they are sent.
abbrev pub with_id : Text → Entry → Entry
with_id t r = if has_id r.client_event_id then r else record r { client_event_id = some t }

abbrev pub with_ids : (ℕ → Text) → List Entry → List Entry
with_ids fresh [] = []
with_ids fresh (r ∷ q) = with_id (fresh 0) r ∷ with_ids (λ n. fresh (suc n)) q

-- Where the transfer stands: the items that its loop has still to send. `delivered` lists what
-- `submitOperation` has returned for, the last one first.
pub record Session : Type 0 where
  pub stored : Stored
  pub sending : Option (List Entry)
  pub delivered : List Entry

pub data Event : Type 0 where
  enqueue : Bool → Entry → Event
  begin : Bool → (ℕ → Text) → Bool → Event
  answer : Bool → Bool → Event

abbrev pub or_else : {E A : Type 0} → A → Result E A → A
or_else a (ok b) = b
or_else a (err e) = a

-- The start of the transfer, up to its loop.
pub start : (ℕ → Text) → Bool → Stored → Result Refusal (Stored × List Entry)
start fresh room st = do
  q ← pending_operations st
  let queued = with_ids fresh q
  if is_nil q
      then ok (st, [])
      else save_pending_operations room queued >>= λ next. ok (next, queued)

pub begin_from : Session → Result Refusal (Stored × List Entry) → Session
begin_from s (ok (st, queued)) = record s { stored = st; sending = some queued }
begin_from s (err e) = s

-- `pendingOperations().filter(…)` after an item was taken.
pub remove_sent : Bool → Entry → Stored → Result Refusal Stored
remove_sent room r st = do
  q ← pending_operations st
  save_pending_operations room (keep (λ i. not (same_event i r)) q)

-- One round of the loop, after the request has ended.
pub answer_head : Bool → Bool → Session → Option (List Entry) → Session
unfolding remove_sent
answer_head accepted room s none = s
answer_head accepted room s (some []) = record s { sending = none }
answer_head true room s (some (r ∷ rest)) = record s {
  stored = or_else s.stored (remove_sent room r s.stored);
  sending = some rest;
  delivered = r ∷ s.delivered;
}
answer_head false room s (some (r ∷ rest)) = record s { sending = some rest }

-- `flushPendingOperations`: while a transfer runs, a second call waits for it.
pub begin_when : Option (List Entry) → Bool → (ℕ → Text) → Bool → Session → Session
unfolding start begin_from
begin_when (some queued) may_send fresh room s = s
begin_when none true fresh room s = begin_from s (start fresh room s.stored)
begin_when none false fresh room s = s

-- `begin may_send fresh room`: `flushPendingOperations` is called, on line and not in local mode if
-- `may_send`. New items come at any time.
unfoldable pub step : Session → Event → Session
unfolding begin_when answer_head
step s (enqueue room r) = record s { stored = or_else s.stored (queue_operation room r s.stored) }
step s (begin may_send fresh room) = begin_when s.sending may_send fresh room s
step s (answer accepted room) = answer_head accepted room s s.sending

unfoldable pub run : Session → List Event → Session
unfolding step
run s [] = s
run s (e ∷ es) = run (step s e) es
