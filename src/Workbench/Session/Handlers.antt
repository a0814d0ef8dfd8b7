-- ===== src/Workbench/Session/Handlers.antt =====
-- The handlers in `create` of cmd/web/geo-workbench.js, and the events that they take.
use osmmini.Base.{
  ℕ, ◌+◌, ◌-◌, false, not, ◌&&◌, Option, none, some, List, [], ◌∷◌, Text, length, ltb, ◌==◌, ok,
  err, ◌>>=◌,
}
use osmmini.Json.{Value}
use osmmini.Json.Numbers.{Number}
use osmmini.Workbench.Objects.{clone}
use osmmini.Workbench.Select.{subset, edit}
use osmmini.Workbench.Csv.{Table, parse_csv}
use osmmini.Workbench.Join.{join, Joined}
use osmmini.Workbench.Problem.{Checked}
use osmmini.Workbench.Session.{
  Task, geo_file, csv_file, layer, refresh, done, Session, busy, page_count, picker, parse, current,
  fill_edit, render, remember, guard, when, idle,
}

pub data Event : Type 0 where
  edited_object kept joined undone next_page previous_page : Event
  filtered : Text → Text → Event
  chosen_object : Number → Text → Event
  typed : Text → Event
  begun : Task → Event
  finished : Checked Text → Event
  handed : Value → Event

module _ (show : Number → Text) (stringify : Value → Text) (to_number : Text → Number) where
  abbrev pub edited_value : Session → Checked Value
  edited_value s =
      edit show stringify to_number s.collection s.form.edit_index s.form.edit_field
        s.form.edit_value

  unfoldable pub click_edit : Session → Session
  unfolding remember edit
  click_edit s =
      when (idle s) (guard (edited_value s >>= λ next. remember show stringify to_number next s) s)
        s

  unfoldable pub click_keep : Session → Session
  unfolding remember subset current
  click_keep s =
      when (idle s)
        (guard
          (subset s.collection (current show stringify to_number s) >>= λ next.
            remember show stringify to_number next s)
          s)
        s

  abbrev pub joined_value : Table → Session → Checked Joined
  joined_value table s = join show stringify s.collection table s.form.join_field s.form.key_column

  abbrev pub join_table : Option Table → Session → Session
  join_table none s = s
  join_table (some table) s =
      guard
        (joined_value table s >>= λ result. remember show stringify to_number result.collection s) s

  unfoldable pub click_join : Session → Session
  unfolding remember join
  click_join s = when (idle s) (join_table s.csv s) s

  abbrev pub restored : Value → List Value → Session → Session
  restored d rest s = record s { collection = d; history = rest; page = 0 }

  abbrev pub go_back : List Value → Session → Session
  go_back [] s = s
  go_back (d ∷ rest) s = record (render show stringify to_number (restored d rest s)) {
    status = done;
  }

  unfoldable pub click_undo : Session → Session
  unfolding render
  click_undo s = when (not (busy s)) (go_back s.history s) s

  abbrev pub pages : Session → ℕ
  pages s = page_count (length (current show stringify to_number s))

  abbrev pub at_page : ℕ → Session → Session
  at_page page s = record s { page = page }

  unfoldable pub click_next : Session → Session
  unfolding render current
  click_next s =
      when (not (busy s) && ltb (s.page + 1) (pages s))
        (render show stringify to_number (at_page (s.page + 1) s)) s

  unfoldable pub click_previous : Session → Session
  unfolding render
  click_previous s =
      when (not (busy s) && not (s.page == 0))
        (render show stringify to_number (at_page (s.page - 1) s)) s

  abbrev pub filtered_by : Text → Text → Session → Session
  filtered_by name value s = record s {
    page = 0;
    form = record s.form { filter_field = name; filter_value = value };
  }

  unfoldable pub type_filter : Text → Text → Session → Session
  unfolding render
  type_filter name value s = render show stringify to_number (filtered_by name value s)

  unfoldable pub choose_object : Number → Text → Session → Session
  unfolding fill_edit
  choose_object index name s =
      fill_edit show stringify to_number
        (record s { form = record s.form { edit_index = index; edit_field = name } })

  unfoldable pub type_value : Text → Session → Session
  type_value value s = record s { form = record s.form { edit_value = value } }

  abbrev pub with_task : Option Task → Session → Session
  with_task task s = record s { task = task }

  -- The start of `action`, which does nothing while another one runs.
  unfoldable pub begin : Task → Session → Session
  unfolding render
  begin task s = when (not (busy s)) (render show stringify to_number (with_task (some task) s)) s

  -- `load`, whose errors go to the caller.
  abbrev pub loaded : Checked Session → Session → Session
  loaded (ok t) s = t
  loaded (err e) s = s

  unfoldable pub load : Value → Session → Session
  unfolding remember clone
  load next s = loaded (remember show stringify to_number (clone next) s) s

  abbrev pub take_table : Session → Table → Session
  take_table s table = record s {
    csv = some table;
    form = record s.form { key_column = picker false table.header s.form.key_column };
  }

  module _ (parse_json : Text → Option Value) where
    -- What a task does with the text that it waited for.
    abbrev pub complete : Task → Text → Session → Checked Session
    complete geo_file content s =
        parse parse_json content >>= λ next. remember show stringify to_number next s
    complete layer content s =
        parse parse_json content >>= λ next. remember show stringify to_number next s
    complete csv_file content s = parse_csv content >>= λ table. ok (take_table s table)
    complete refresh content s = ok s

    abbrev pub completed : Option Task → Checked Text → Session → Session
    completed none outcome s = s
    completed (some task) outcome s =
        render show stringify to_number
          (with_task none (guard (outcome >>= λ content. complete task content s) s))

    -- The end of `action`: what was awaited is there, or failed.
    unfoldable pub finish : Checked Text → Session → Session
    unfolding render remember parse picker
    finish outcome s = completed s.task outcome s

    unfoldable pub step : Event → Session → Session
    unfolding click_edit click_keep click_join click_undo click_next click_previous type_filter
        choose_object type_value begin finish load
    step edited_object s = click_edit s
    step kept s = click_keep s
    step joined s = click_join s
    step undone s = click_undo s
    step next_page s = click_next s
    step previous_page s = click_previous s
    step (filtered name value) s = type_filter name value s
    step (chosen_object index name) s = choose_object index name s
    step (typed value) s = type_value value s
    step (begun task) s = begin task s
    step (finished outcome) s = finish outcome s
    step (handed next) s = load next s

    unfoldable pub run : List Event → Session → Session
    unfolding step
    run [] s = s
    run (e ∷ rest) s = run rest (step e s)
