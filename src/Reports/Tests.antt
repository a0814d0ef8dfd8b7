-- ===== src/Reports/Tests.antt =====
-- Runs of the field reports of cmd/web/app.js, and their theorem on a concrete report.
use osmmini.Base.{◌≡◌, refl, true, false, none, some, [], ◌∷◌, Text, codes, ok, err}
use osmmini.Operations.{
  missing, holds, queue_operation, append_entry, pending_operations, save_pending_operations,
}
use osmmini.Reports.Form.{
  Report, Controls, operation_payload, operation_type, event_id, no_recipient, maintenance,
}
use osmmini.Reports.Log.{local_operations, submit_local, damaged}
use osmmini.Reports.Submit.{
  Reporting, World, submit, recover, entry_of, queued, failed, unreachable,
}
use osmmini.Reports.Submit.Found.{IsFound, submit-IsFound}
use osmmini.Reports.Export.{operation_csv}

abbrev controls : Controls
controls = record {
  type = some (codes "maintenance");
  asset_code = some (codes " H-7 ");
  recipient = some (codes "somebody");
  status = none;
  check_status = none;
  reference = some (codes "R");
  check_reference = none;
  technician = some (codes "Kim");
  work_type = some (codes "repair");
  notes = none;
}

abbrev report : Report
report = record {
  client_event_id = codes "op_0a";
  type = maintenance;
  asset_code = codes "H-7";
  status = codes "completed";
  recipient = [];
  reference = [];
  technician = codes "Kim";
  work_type = codes "repair";
  notes = [];
  occurred_at = codes "now";
  position = none;
}

operation_payload-run :
    operation_payload controls none (codes "now") (event_id none (some (10 ∷ []))) ≡ ok report
unfolding operation_payload operation_type event_id
operation_payload-run = refl

operation_payload-pod :
    operation_payload
      (record controls { type = none; recipient = some (codes " ") })
      none
      (codes "now")
      (ok (codes "e"))
    ≡ err no_recipient
unfolding operation_payload operation_type
operation_payload-pod = refl

abbrev encode : Report → Text
encode r = r.asset_code

abbrev start : Reporting
start = record { log = damaged; queue = missing; recent = []; place = none; message = failed }

abbrev off_line : World
off_line = record {
  log_room = true;
  queue_room = true;
  on_line = false;
  now = codes "later";
  answer = unreachable;
}

-- A report that the log refuses is queued where the browser is off line, though reports stay in the
-- browser and nothing is ever transferred.
submit-local_run :
    submit encode true off_line (ok report) start
    ≡ record start { queue = holds (entry_of encode report ∷ []); message = queued }
unfolding submit submit_local recover local_operations queue_operation append_entry
    pending_operations save_pending_operations
submit-local_run = refl

operation_csv-run :
    operation_csv (λ n. []) []
    ≡ 0xFEFF
      ∷ codes
          "id;type;asset_code;status;recipient;reference;technician;work_type;notes;occurred_at;created_at;latitude;longitude"
unfolding operation_csv
operation_csv-run = refl

submit-IsFound_example :
    IsFound encode false off_line report start (submit encode false off_line (ok report) start)
submit-IsFound_example = submit-IsFound encode false off_line report start
