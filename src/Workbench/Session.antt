-- ===== src/Workbench/Session.antt =====
-- `parse` and `create` of cmd/web/geo-workbench.js: the state behind the panel, its handlers, and
-- what it shows. `show` is `String` on numbers, `stringify` is `JSON.stringify`, `to_number` is
-- `Number` on texts and `parse_json` is `JSON.parse`, or `none` where it throws.
pub mod Handlers
pub mod View
pub mod Kept
pub mod Reached
use osmmini.Base.{
  ℕ, zero, suc, ◌+◌, ◌-◌, ◌*◌, ◌/◌, Bool, true, false, not, ◌&&◌, ◌||◌, Option, none, some, List,
  [], ◌∷◌, map, Text, codes, length, is_nil, ltb, leb, ◌==◌, any, all, keep, take, drop, get_elem?,
  if◌then◌else◌, ok, err, ◌>>=◌, Result,
}
use osmmini.Json.{Value, string, array, object, nil, end, property, lookup}
use osmmini.Json.Numbers.{Number}
use osmmini.Workbench.Objects.{features, properties, text, is_scalar}
use osmmini.Workbench.Validate.{validate}
use osmmini.Workbench.Select.{fields, includes, matching, subset, select_fields, edit, at_index}
use osmmini.Workbench.Csv.{Table, parse_csv, to_csv, byte_length, without_mark, max_bytes}
use osmmini.Workbench.Join.{join, Joined}
use osmmini.Workbench.Problem.{
  Problem, Checked, file_too_large, no_json, state_too_large, no_key_column,
}

-- `empty()`
unfoldable pub empty : Value
empty = object (
    property (codes "type") (string (codes "FeatureCollection"))
      (property (codes "features") (array nil) end))

-- The values of the panel's controls.
pub record Form : Type 0 where
  pub filter_field : Text
  pub filter_value : Text
  pub edit_field : Text
  pub edit_index : Number
  pub edit_value : Text
  pub join_field : Text
  pub key_column : Text
  pub selected : List Text
  pub shown : Bool

-- What is awaited while the panel is busy.
pub data Task : Type 0 where
  geo_file csv_file layer refresh : Task

pub data Status : Type 0 where
  silent done : Status
  failed : Problem → Status

-- `history` holds the last state first.
pub record Session : Type 0 where
  pub collection : Value
  pub history : List Value
  pub csv : Option Table
  pub page : ℕ
  pub task : Option Task
  pub status : Status
  pub form : Form

abbrev pub busy : Session → Bool
busy s = some_task s.task
  where
    some_task : Option Task → Bool
    some_task none = false
    some_task (some t) = true

abbrev pub page_size : ℕ
page_size = 25

abbrev pub history_limit : ℕ
history_limit = 5

-- `Math.max(1, Math.ceil(n / PAGE_SIZE))`
abbrev pub page_count : ℕ → ℕ
page_count n = if n == 0 then 1 else (n + 24) / 25

abbrev pub min_page : ℕ → ℕ → ℕ
min_page page pages = if leb page (pages - 1) then page else pages - 1

-- `history.shift()`, where the last state stands first.
abbrev pub without_oldest : List Value → List Value
without_oldest [] = []
without_oldest (d ∷ []) = []
without_oldest (d ∷ e ∷ rest) = d ∷ without_oldest (e ∷ rest)

unfoldable pub push_history : Value → List Value → List Value
push_history d history =
    if ltb history_limit (length (d ∷ history)) then without_oldest (d ∷ history) else d ∷ history

-- `picker`: the value stays where it is one of the keys, and is that of the first option otherwise.
abbrev first_option : Bool → List Text → Text
first_option true keys = []
first_option false [] = []
first_option false (key ∷ keys) = key

unfoldable pub picker : Bool → List Text → Text → Text
picker blank keys value = if includes value keys then value else first_option blank keys

-- `guard`: an error is shown and changes nothing.
abbrev pub guard : Checked Session → Session → Session
guard (ok t) s = record t { status = done }
guard (err e) s = record s { status = failed e }

-- A button that is off takes no click.
abbrev pub when : Bool → Session → Session → Session
when true t s = t
when false t s = s

abbrev pub idle : Session → Bool
idle s = not (busy s) && not (is_nil (features s.collection))

-- `parse`
module _ (parse_json : Text → Option Value) where
  abbrev read_json : Option Value → Checked Value
  read_json none = err no_json
  read_json (some v) = validate v >>= λ points. ok v

  unfoldable pub parse : Text → Checked Value
  unfolding validate
  parse source =
      let read = read_json (parse_json (without_mark source)) in
      if ltb max_bytes (byte_length source) then err file_too_large else read

module _ (show : Number → Text) (stringify : Value → Text) (to_number : Text → Number) where
  -- `current`
  unfoldable pub current : Session → List ℕ
  unfolding matching
  current s = matching show stringify to_number s.collection s.form.filter_field s.form.filter_value

  -- `fillEdit`: the attribute of the chosen object.
  abbrev edited : Session → Option Value
  edited s = attribute (at_index (features s.collection) s.form.edit_index)
    where
      attribute : Option (ℕ × Value) → Option Value
      attribute none = none
      attribute (some (i, f)) = lookup s.form.edit_field (properties f)

  unfoldable pub fill_edit : Session → Session
  unfolding features properties text
  fill_edit s = record s { form = record s.form { edit_value = text show stringify (edited s) } }

  -- `render`, as far as it changes the state: the choices, the page and the value to edit.
  abbrev choose : List Text → Form → Form
  choose keys form = record form {
    filter_field = picker true keys form.filter_field;
    edit_field = picker false keys form.edit_field;
    join_field = picker false keys form.join_field;
    selected = keep (λ key. includes key form.selected) keys;
  }

  abbrev turn : ℕ → Session → Session
  turn count s = record s { page = min_page s.page (page_count count) }

  unfoldable pub render : Session → Session
  unfolding current fill_edit fields picker
  render s =
      let chosen = record s { form = choose (fields s.collection) s.form } in
      fill_edit (turn (length (current chosen)) chosen)

  -- `remember`
  unfoldable pub remember : Value → Session → Checked Session
  unfolding push_history render validate
  remember next s = validate next >>= λ points.
      if ltb max_bytes (byte_length (stringify next))
      then err state_too_large
      else ok (
          render (record s {
            history = push_history s.collection s.history;
            collection = next;
            page = 0;
          }))

  unfoldable pub at_start : Form → Session
  unfolding empty
  at_start form = record {
    collection = empty;
    history = [];
    csv = none;
    page = 0;
    task = none;
    status = silent;
    form = form;
  }

  -- `create`, on a panel with the controls `form`.
  unfoldable pub create : Form → Session
  unfolding render at_start
  create form = render (at_start form)
