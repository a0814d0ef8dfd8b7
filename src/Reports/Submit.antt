-- ===== src/Reports/Submit.antt =====
-- The handler of the form in cmd/web/app.js: a report is written to the log or sent to the server, and
-- queued where that fails off line. `encode` is the JSON text of a report.
pub mod Found
use osmmini.Base.{
  Bool, true, false, not, ◌||◌, Option, none, some, List, [], ◌∷◌, Text, take, any, if◌then◌else◌,
  Result, ok, err,
}
use osmmini.Json.Numbers.{Number}
use osmmini.Operations.{Stored, Entry, holds, same_event, queue_operation}
use osmmini.Reports.Form.{Report, Problem}
use osmmini.Reports.Log.{Log, Created, submit_local}

-- How a request to the server comes out: the record it made, a refusal, or no answer at all (the
-- `TypeError` of `fetch`).
pub data Answer : Type 0 where
  created : Created → Answer
  refused unreachable : Answer

pub data Message : Type 0 where
  saved queued not_queued failed incomplete : Message

pub record Reporting : Type 0 where
  pub log : Log
  pub queue : Stored
  pub recent : List Created
  pub place : Option (Number × Number)
  pub message : Message

-- What the browser does during one submission: whether it stores, whether it is on line, and what
-- the server answers.
pub record World : Type 0 where
  pub log_room : Bool
  pub queue_room : Bool
  pub on_line : Bool
  pub now : Text
  pub answer : Answer

module _ (encode : Report → Text) where
  abbrev pub entry_of : Report → Entry
  entry_of r = record { client_event_id = id_of r.client_event_id; payload = encode r }
    where
      id_of : Text → Option Text
      id_of [] = none
      id_of (c ∷ s) = some (c ∷ s)

  -- `operationRecords.unshift(created)`, cut to 100, and the form cleared.
  abbrev accept : Created → Reporting → Reporting
  accept c s = record s { recent = take 100 (c ∷ s.recent); place = none; message = saved }

  -- A report whose ID is in the queue before shows no message.
  abbrev after_queue : Stored → Entry → Message → Message
  after_queue (holds q) e old = if any (λ i. same_event i e) q then old else queued
  after_queue stored e old = queued

  abbrev pub queued_as : Entry → Result osmmini.Operations.Refusal Stored → Reporting → Reporting
  queued_as e (ok queue) s = record s { queue = queue; message = after_queue s.queue e s.message }
  queued_as e (err refusal) s = record s { message = not_queued }

  -- The `catch`: `network` says that the error is a `TypeError`.
  unfoldable pub recover : World → Bool → Report → Reporting → Reporting
  unfolding queue_operation
  recover w network r s =
      if network || not w.on_line
      then queued_as (entry_of r) (queue_operation w.queue_room (entry_of r) s.queue) s
      else record s { message = failed }

  abbrev pub logged :
      World → Report → Result osmmini.Reports.Log.Refusal (Log × Created) → Reporting → Reporting
  logged w r (ok done) s = record (accept done.1 s) { log = done.0 }
  logged w r (err e) s = recover w false r s

  abbrev pub answered : World → Report → Answer → Reporting → Reporting
  answered w r (created c) s = accept c s
  answered w r refused s = recover w false r s
  answered w r unreachable s = recover w true r s

  abbrev pub submit_report : Bool → World → Report → Reporting → Reporting
  submit_report true w r s = logged w r (submit_local w.log_room w.now r s.log) s
  submit_report false w r s = answered w r w.answer s

  -- The handler; `local` is `deployment.browser_local_operations`.
  unfoldable pub submit : Bool → World → Result Problem Report → Reporting → Reporting
  unfolding recover submit_local
  submit local w (err e) s = record s { message = incomplete }
  submit local w (ok r) s = submit_report local w r s
