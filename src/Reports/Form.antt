-- ===== src/Reports/Form.antt =====
-- `operationType`, `operationEventID` and `operationPayload` of cmd/web/app.js. A control that is
-- missing has no value.
use osmmini.Base.{
  ℕ, ◌/◌, ◌%◌, Bool, true, false, ◌&&◌, Option, none, some, List, [], ◌∷◌, ◌++◌, Text, codes,
  text_eq, trim, is_nil, ltb, flat_map, if◌then◌else◌, Result, ok, err, ◌>>=◌, ◌+◌,
}
use osmmini.Json.Numbers.{Number}

pub data Problem : Type 0 where
  no_asset_code no_recipient no_secure_id : Problem

pub data ReportType : Type 0 where
  pod maintenance check : ReportType

abbrev pub type_eq : ReportType → ReportType → Bool
type_eq pod pod = true
type_eq maintenance maintenance = true
type_eq check check = true
type_eq _ _ = false

-- `operationType`, and the choice in `setOperationMode`.
unfoldable pub operation_type : Option Text → ReportType
operation_type none = pod
operation_type (some t) =
    if text_eq t (codes "maintenance")
    then maintenance
    else if text_eq t (codes "check")
    then check
    else pod

-- The values of the controls.
pub record Controls : Type 0 where
  pub type : Option Text
  pub asset_code : Option Text
  pub recipient : Option Text
  pub status : Option Text
  pub check_status : Option Text
  pub reference : Option Text
  pub check_reference : Option Text
  pub technician : Option Text
  pub work_type : Option Text
  pub notes : Option Text

pub record Report : Type 0 where
  pub client_event_id : Text
  pub type : ReportType
  pub asset_code : Text
  pub status : Text
  pub recipient : Text
  pub reference : Text
  pub technician : Text
  pub work_type : Text
  pub notes : Text
  pub occurred_at : Text
  pub position : Option (Number × Number)

-- `value?.trim() || ''`, and `value || fallback`.
abbrev pub trimmed : Option Text → Text
trimmed none = []
trimmed (some s) = trim s

abbrev pub or_else : Option Text → Text → Text
or_else none fallback = fallback
or_else (some s) fallback = if is_nil s then fallback else s

abbrev hex_digit : ℕ → ℕ
hex_digit n = if ltb n 10 then 0x30 + n else 0x57 + n

abbrev hex_byte : ℕ → Text
hex_byte b = hex_digit (b / 16) ∷ hex_digit (b % 16) ∷ []

-- `operationEventID`: the browser has a generator of IDs, or of bytes, or neither.
unfoldable pub event_id : Option Text → Option (List ℕ) → Result Problem Text
event_id (some id) bytes = ok id
event_id none none = err no_secure_id
event_id none (some bytes) = ok (codes "op_" ++ flat_map hex_byte bytes)

abbrev status_of : ReportType → Controls → Text
status_of pod c = codes "delivered"
status_of maintenance c = or_else c.status (codes "completed")
status_of check c = or_else c.check_status (codes "checked")

abbrev reference_of : ReportType → Controls → Text
reference_of pod c = trimmed c.reference
reference_of maintenance c = []
reference_of check c = trimmed c.check_reference

abbrev only : ReportType → ReportType → Text → Text
only wanted type value = if type_eq type wanted then value else []

abbrev report_of : Controls → Option (Number × Number) → Text → Text → Report
report_of c place now id =
    let type = operation_type c.type in
    record {
      client_event_id = id;
      type = type;
      asset_code = trimmed c.asset_code;
      status = status_of type c;
      recipient = only pod type (trimmed c.recipient);
      reference = reference_of type c;
      technician = only maintenance type (trimmed c.technician);
      work_type = only maintenance type (or_else c.work_type []);
      notes = trimmed c.notes;
      occurred_at = now;
      position = place;
    }

-- `operationPayload`, with what `operationEventID` gives.
unfoldable pub operation_payload :
    Controls → Option (Number × Number) → Text → Result Problem Text → Result Problem Report
unfolding operation_type
operation_payload c place now id =
    let payload = id >>= λ t. ok (report_of c place now t) in
    if is_nil (trimmed c.asset_code)
    then err no_asset_code
    else (if type_eq (operation_type c.type) pod && is_nil (trimmed c.recipient)
        then err no_recipient
        else payload)
