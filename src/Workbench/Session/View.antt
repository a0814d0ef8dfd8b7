-- ===== src/Workbench/Session/View.antt =====
-- What the panel of cmd/web/geo-workbench.js shows and exports.
use osmmini.Base.{
  ◌+◌, Bool, true, false, ◌||◌, Option, none, some, List, [], ◌∷◌, Text, is_nil, leb, ◌==◌,
  if◌then◌else◌, ok, ◌>>=◌,
}
use osmmini.Json.{Value}
use osmmini.Json.Numbers.{Number}
use osmmini.Workbench.Objects.{features}
use osmmini.Workbench.Select.{subset, select_fields}
use osmmini.Workbench.Csv.{Table, to_csv}
use osmmini.Workbench.Problem.{Checked}
use osmmini.Workbench.Session.{Session, busy, current, empty}
use osmmini.Workbench.Session.Handlers.{pages}

-- The buttons that `render` turns off.
pub record Buttons : Type 0 where
  pub previous_off : Bool
  pub next_off : Bool
  pub undo_off : Bool
  pub edits_off : Bool
  pub join_off : Bool
  pub files_off : Bool

module _ (show : Number → Text) (stringify : Value → Text) (to_number : Text → Number) where
  -- `exportData`: the text of the file that is offered, or none while the panel is busy.
  abbrev narrowed : List Text → Value → Value
  narrowed [] v = v
  narrowed (k ∷ ks) v = select_fields v (k ∷ ks)

  unfoldable pub export_csv : Session → Checked (Option Text)
  unfolding subset current to_csv select_fields
  export_csv s =
      let exported = subset s.collection (current show stringify to_number s) >>= λ v.
      ok (some (to_csv show stringify (narrowed s.form.selected v))) in
      if busy s then ok none else exported

  -- `renderMap`: the collection that the map shows.
  unfoldable pub map_data : Session → Checked Value
  unfolding subset current
  map_data s =
      if s.form.shown then subset s.collection (current show stringify to_number s) else ok empty

  abbrev no_table : Option Table → Bool
  no_table none = true
  no_table (some t) = false

  unfoldable pub buttons : Session → Buttons
  unfolding current
  buttons s = record {
    previous_off = busy s || s.page == 0;
    next_off = busy s || leb (pages show stringify to_number s) (s.page + 1);
    undo_off = busy s || is_nil s.history;
    edits_off = busy s || is_nil (features s.collection);
    join_off = busy s || (no_table s.csv || is_nil (features s.collection));
    files_off = busy s;
  }
