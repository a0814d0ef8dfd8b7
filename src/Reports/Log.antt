-- ===== src/Reports/Log.antt =====
-- The log in the browser: `localOperations`, `saveLocalOperations` and the local part of
-- `submitOperation` in cmd/web/app.js.
use osmmini.Base.{
  ℕ, Bool, List, [], ◌∷◌, ◌++◌, Text, codes, length, ltb, leb, if◌then◌else◌, Result, ok, err,
  ◌>>=◌,
}
use osmmini.Reports.Form.{Report}

pub record Created : Type 0 where
  pub report : Report
  pub id : Text
  pub actor : Text
  pub created_at : Text

-- What is stored: nothing, a text that holds no array, or an array.
pub data Log : Type 0 where
  missing damaged : Log
  records : List Created → Log

pub data Refusal : Type 0 where
  log_damaged log_full no_room : Refusal

abbrev pub log_limit : ℕ
log_limit = 500

-- `localOperations`
unfoldable pub local_operations : Log → Result Refusal (List Created)
local_operations missing = ok []
local_operations damaged = err log_damaged
local_operations (records rs) = ok rs

-- `saveLocalOperations`, where the browser has room or not.
unfoldable pub save_local_operations : Bool → List Created → Result Refusal Log
save_local_operations room rs =
    if ltb log_limit (length rs)
    then err log_full
    else (if room then ok (records rs) else err no_room)

abbrev pub created_of : Report → Text → Created
created_of r now = record {
  report = r;
  id = codes "browser_" ++ r.client_event_id;
  actor = codes "browser-local";
  created_at = now;
}

abbrev pub put_first : Bool → Created → List Created → Result Refusal Log
put_first room c rs =
    if leb log_limit (length rs) then err log_full else save_local_operations room (c ∷ rs)

-- `submitOperation` where reports stay in the browser.
unfoldable pub submit_local : Bool → Text → Report → Log → Result Refusal (Log × Created)
unfolding local_operations save_local_operations
submit_local room now r log = local_operations log >>= λ rs.
    put_first room (created_of r now) rs >>= λ next. ok (next, created_of r now)
