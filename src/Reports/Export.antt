-- ===== src/Reports/Export.antt =====
-- What cmd/web/app.js shows of the reports: `operationCSV`, `renderOperationsHistory`, the texts of
-- `setOperationMode` and `setOperationsDeploymentStatus`, and the headers of its requests. `show` is
-- `String` on numbers, and `local_time` the local form of a time.
use osmmini.Base.{
  Bool, not, Option, none, some, List, [], ◌∷◌, ◌++◌, map, Text, codes, keep, is_nil, ◌==◌,
  if◌then◌else◌,
}
use osmmini.Json.Numbers.{Number}
use osmmini.Reports.Form.{Report, ReportType, pod, maintenance, check, type_eq, trimmed, or_else}
use osmmini.Reports.Log.{Created}

abbrev pub type_word : ReportType → Text
type_word pod = codes "pod"
type_word maintenance = codes "maintenance"
type_word check = codes "check"

-- `xs.join(separator)`
abbrev pub joined : Text → List Text → Text
joined separator [] = []
joined separator (x ∷ []) = x
joined separator (x ∷ y ∷ rest) = x ++ (separator ++ joined separator (y ∷ rest))

abbrev double_quotes : Text → Text
double_quotes [] = []
double_quotes (c ∷ s) =
    let rest = double_quotes s in if c == 0x22 then 0x22 ∷ 0x22 ∷ rest else c ∷ rest

abbrev quoted : Text → Text
quoted s = 0x22 ∷ (double_quotes s ++ 0x22 ∷ [])

abbrev columns : List Text
columns =
    codes "id"
    ∷ codes "type"
    ∷ codes "asset_code"
    ∷ codes "status"
    ∷ codes "recipient"
    ∷ codes "reference"
    ∷ codes "technician"
    ∷ codes "work_type"
    ∷ codes "notes"
    ∷ codes "occurred_at"
    ∷ codes "created_at"
    ∷ codes "latitude"
    ∷ codes "longitude"
    ∷ []

module _ (show : Number → Text) where
  abbrev place_values : Option (Number × Number) → List Text
  place_values none = [] ∷ [] ∷ []
  place_values (some p) = show p.0 ∷ show p.1 ∷ []

  abbrev values : Created → List Text
  values c =
      c.id
      ∷ type_word c.report.type
      ∷ c.report.asset_code
      ∷ c.report.status
      ∷ c.report.recipient
      ∷ c.report.reference
      ∷ c.report.technician
      ∷ c.report.work_type
      ∷ c.report.notes
      ∷ c.report.occurred_at
      ∷ c.created_at
      ∷ place_values c.report.position

  -- `operationCSV`
  unfoldable pub operation_csv : List Created → Text
  operation_csv records = joined (codes "\n") (
      (0xFEFF ∷ joined (codes ";") columns)
      ∷ map (λ c. joined (codes ";") (map quoted (values c))) records)

-- `xs.filter(Boolean).join(' · ')`
abbrev dotted : List Text → Text
dotted xs = joined (codes " · ") (keep (λ x. not (is_nil x)) xs)

abbrev type_label : ReportType → Text
type_label pod = codes "📦 Zustellung"
type_label maintenance = codes "🔧 Wartung"
type_label check = codes "📋 Lagecheck"

abbrev context : Report → Text
context r = of_type r.type
  where
    of_type : ReportType → Text
    of_type maintenance = dotted (r.work_type ∷ r.status ∷ r.technician ∷ [])
    of_type check = dotted (r.status ∷ r.reference ∷ [])
    of_type pod = dotted (r.recipient ∷ r.reference ∷ [])

abbrev pin : Option (Number × Number) → Text
pin none = []
pin (some p) = codes "📍"

module _ (local_time : Text → Text) where
  abbrev time_of : Text → Text
  time_of [] = []
  time_of (c ∷ s) = local_time (c ∷ s)

  -- An entry of `renderOperationsHistory`: its title and its detail.
  unfoldable pub history_entry : Created → Text × Text
  history_entry c = (
    type_label c.report.type
        ++ (codes " · " ++ or_else (some c.report.asset_code) (codes "ohne ID")),
    dotted (context c.report ∷ c.actor ∷ time_of c.report.occurred_at ∷ pin c.report.position ∷ []),
  )

  abbrev no_entry : List (Text × Text)
  no_entry = (codes "Noch keine Einträge.", []) ∷ []

  unfoldable pub operations_history : List Created → List (Text × Text)
  unfolding history_entry
  operations_history [] = no_entry
  operations_history (c ∷ rest) = map history_entry (c ∷ rest)

-- What `setOperationMode` shows and hides.
pub record Mode : Type 0 where
  pub selected : ReportType
  pub pod_hidden : Bool
  pub maintenance_hidden : Bool
  pub check_hidden : Bool
  pub submit_text : Text
  pub status_text : Text

abbrev submit_text_of : ReportType → Text
submit_text_of pod = codes "Zustellnachweis speichern"
submit_text_of maintenance = codes "Wartung protokollieren"
submit_text_of check = codes "Lagecheck speichern"

abbrev status_text_of : ReportType → Text
status_text_of pod = codes "Barcode erfassen, Empfänger:in ergänzen und lokal speichern."
status_text_of maintenance =
    codes "Objekt erfassen, Arbeit und Status ergänzen und lokal speichern."
status_text_of check =
    codes "Objekt, Ressource oder Abschnitt erfassen und die aktuelle Lage lokal protokollieren."

unfoldable pub set_operation_mode : ReportType → Mode
set_operation_mode type = record {
  selected = type;
  pod_hidden = not (type_eq type pod);
  maintenance_hidden = not (type_eq type maintenance);
  check_hidden = not (type_eq type check);
  submit_text = submit_text_of type;
  status_text = status_text_of type;
}

pub record Deployment : Type 0 where
  pub operator_auth_required : Bool
  pub browser_local_operations : Bool

-- `setOperationsDeploymentStatus`: the text, and whether the row of the token is hidden.
unfoldable pub deployment_status : Deployment → Text × Bool
deployment_status d = (
  if d.browser_local_operations
      then codes
          "Browser-lokal: Protokolle bleiben auf diesem Gerät und können als CSV exportiert werden."
      else if d.operator_auth_required
      then codes
          "Mehrbenutzer-Server: Einträge werden zentral gespeichert und dem Operator-Token zugeordnet."
      else codes "Einzelserver: Protokolle werden lokal auf diesem Server gespeichert.",
  not d.operator_auth_required,
)

abbrev Headers : Type 0
Headers = List (Text × Text)

abbrev bearer : Text → Headers → Headers
bearer token headers =
    if is_nil token
    then headers
    else headers ++ (codes "Authorization", codes "Bearer " ++ token) ∷ []

-- `adminAuthHeaders`: the token in the field, or the one of the session.
unfoldable pub admin_auth_headers : Option Text → Option Text → Headers → Headers
admin_auth_headers entered kept headers =
    bearer (or_else (some (trimmed entered)) (or_else kept [])) headers

-- `operationHeaders`: the headers, and the operator's token that the session keeps after it.
unfoldable pub operation_headers :
    Deployment → Option Text → Option Text → Headers → Headers → Headers × Option Text
operation_headers d entered kept headers admin =
    let token = or_else (some (trimmed entered)) (or_else kept []) in
    if d.operator_auth_required
    then (bearer token headers, if is_nil token then kept else some token)
    else (admin, kept)
