-- ===== src/Workbench/Session/Reached.antt =====
-- What holds of the workbench of cmd/web/geo-workbench.js after any events.
use osmmini.Base.{
  ℕ, ◌+◌, ◌-◌, ◌≡◌, refl, ap, subst, Bool, ◌&&◌, not, Option, none, some, List, [], ◌∷◌, Text, All,
  length, arith, ltb, ◌==◌, ok, err, ◌>>=◌, Ensures, Ensures-bind, Ensures-any,
}
use osmmini.Json.{Value}
use osmmini.Json.Numbers.{Number}
use osmmini.Workbench.Problem.{Checked}
use osmmini.Workbench.Validate.{validate, check_system, count_features, each, feature}
use osmmini.Workbench.Join.{Joined}
use osmmini.Workbench.Select.{subset}
use osmmini.Workbench.Objects.{clone, features}
use osmmini.Workbench.Csv.{Table, parse_csv}
use osmmini.Workbench.Session.{
  Session, Form, Task, render, remember, current, fill_edit, guard, create, empty, when, busy, idle,
  at_start, geo_file, layer, csv_file, refresh, parse,
}
use osmmini.Workbench.Session.Handlers.{
  Event, step, run, click_edit, click_keep, join_table, click_join, go_back, click_undo, click_next,
  click_previous, type_filter, choose_object, type_value, begin, loaded, load, finish, complete,
  completed, take_table, edited_value, joined_value, restored, at_page, filtered_by, with_task,
  pages, edited_object, kept, joined, undone, next_page, previous_page, filtered, chosen_object,
  typed, begun, finished, handed,
}
use osmmini.Workbench.Session.Kept.{
  IsValid, IsKept, IsShown, render-Fine, remember-Fine, guard-Fine, when-Fine, then_remember-Fine,
}

module _ (show : Number → Text) (stringify : Value → Text) (to_number : Text → Number) where
  abbrev Fine : Session → Type 0
  Fine s = IsKept s × IsShown show stringify to_number s

  abbrev run_on : Session → Session
  run_on s = render show stringify to_number s

  abbrev remembered : Session → Value → Checked Session
  remembered s next = remember show stringify to_number next s

  click_edit-Fine : (s : Session) → Fine s → Fine (click_edit show stringify to_number s)
  unfolding click_edit
  click_edit-Fine s h =
      let r = edited_value show stringify to_number s in
      let m : Checked Session = r >>= remembered s in
      when-Fine show stringify to_number (idle s) (guard m s) s
        (guard-Fine show stringify to_number m s
          (then_remember-Fine show stringify to_number r (λ v. v) s h.0) h)
        h

  click_keep-Fine : (s : Session) → Fine s → Fine (click_keep show stringify to_number s)
  unfolding click_keep
  click_keep-Fine s h =
      let r = subset s.collection (current show stringify to_number s) in
      let m : Checked Session = r >>= remembered s in
      when-Fine show stringify to_number (idle s) (guard m s) s
        (guard-Fine show stringify to_number m s
          (then_remember-Fine show stringify to_number r (λ v. v) s h.0) h)
        h

  join_table-Fine :
      (csv : Option Table) (s : Session) → Fine s → Fine (join_table show stringify to_number csv s)
  join_table-Fine none s h = h
  join_table-Fine (some table) s h =
      let r = joined_value show stringify to_number table s in
      guard-Fine show stringify to_number (r >>= λ j. remembered s j.collection) s
        (then_remember-Fine show stringify to_number r (λ (j : Joined). j.collection) s h.0) h

  click_join-Fine : (s : Session) → Fine s → Fine (click_join show stringify to_number s)
  unfolding click_join
  click_join-Fine s h =
      when-Fine show stringify to_number (idle s) (join_table show stringify to_number s.csv s) s
        (join_table-Fine s.csv s h) h

  restored-IsKept :
      (d : Value) (rest : List Value) (s : Session)
      → s.history ≡ d ∷ rest
      → IsKept s
      → IsKept (restored show stringify to_number d rest s)
  unfolding IsKept
  restored-IsKept d rest s e (v, all, short) =
      let below : All IsValid (d ∷ rest) = subst (All IsValid) e all in
      (below.0, below.1, omega (arith, short, ap length e))

  go_back-Fine :
      (history : List Value) (s : Session)
      → s.history ≡ history
      → Fine s
      → Fine (go_back show stringify to_number history s)
  unfolding IsKept IsShown current
  go_back-Fine [] s e h = h
  go_back-Fine (d ∷ rest) s e h =
      render-Fine show stringify to_number (restored show stringify to_number d rest s)
        (restored-IsKept d rest s e h.0)

  click_undo-Fine : (s : Session) → Fine s → Fine (click_undo show stringify to_number s)
  unfolding click_undo
  click_undo-Fine s h =
      when-Fine show stringify to_number (not (busy s))
        (go_back show stringify to_number s.history s) s (go_back-Fine s.history s refl h) h

  at_page-Fine :
      (b : Bool) (page : ℕ) (s : Session)
      → Fine s
      → Fine (when b (run_on (at_page show stringify to_number page s)) s)
  unfolding IsKept
  at_page-Fine b page s h =
      let t = at_page show stringify to_number page s in
      when-Fine show stringify to_number b (run_on t) s (render-Fine show stringify to_number t h.0)
        h

  click_next-Fine : (s : Session) → Fine s → Fine (click_next show stringify to_number s)
  unfolding click_next
  click_next-Fine s h =
      at_page-Fine (not (busy s) && ltb (s.page + 1) (pages show stringify to_number s))
        (s.page + 1) s h

  click_previous-Fine : (s : Session) → Fine s → Fine (click_previous show stringify to_number s)
  unfolding click_previous
  click_previous-Fine s h = at_page-Fine (not (busy s) && not (s.page == 0)) (s.page - 1) s h

  type_filter-Fine :
      (name value : Text) (s : Session)
      → Fine s
      → Fine (type_filter show stringify to_number name value s)
  unfolding type_filter IsKept
  type_filter-Fine name value s h =
      render-Fine show stringify to_number (filtered_by show stringify to_number name value s) h.0

  choose_object-Fine :
      (index : Number) (name : Text) (s : Session)
      → Fine s
      → Fine (choose_object show stringify to_number index name s)
  unfolding choose_object IsKept IsShown fill_edit current
  choose_object-Fine index name s h = h

  type_value-Fine :
      (value : Text) (s : Session) → Fine s → Fine (type_value show stringify to_number value s)
  unfolding type_value IsKept IsShown current
  type_value-Fine value s h = h

  begin-Fine : (task : Task) (s : Session) → Fine s → Fine (begin show stringify to_number task s)
  unfolding begin IsKept
  begin-Fine task s h =
      let t = with_task show stringify to_number (some task) s in
      when-Fine show stringify to_number (not (busy s)) (run_on t) s
        (render-Fine show stringify to_number t h.0) h

  loaded-Fine :
      (r : Checked Session) (s : Session)
      → Ensures Fine r
      → Fine s
      → Fine (loaded show stringify to_number r s)
  loaded-Fine (ok t) s e h = e
  loaded-Fine (err x) s e h = h

  load-Fine : (next : Value) (s : Session) → Fine s → Fine (load show stringify to_number next s)
  unfolding load
  load-Fine next s h =
      loaded-Fine (remembered s (clone next)) s
        (remember-Fine show stringify to_number (clone next) s h.0) h

  -- At the start there is a collection of no objects.
  at_start-Kept : (form : Form) → IsKept (at_start show stringify to_number form)
  unfolding at_start IsKept IsValid empty validate check_system count_features each feature features
  at_start-Kept form = ((0, refl), tt, omega arith)

  create-Fine : (form : Form) → Fine (create show stringify to_number form)
  unfolding create
  create-Fine form =
      render-Fine show stringify to_number (at_start show stringify to_number form)
        (at_start-Kept form)

  module _ (parse_json : Text → Option Value) where
    take_table-Fine :
        (s : Session) (table : Table) → Fine s → Fine (take_table show stringify to_number s table)
    unfolding IsKept IsShown current
    take_table-Fine s table h = h

    complete-Fine :
        (task : Task) (content : Text) (s : Session)
        → Fine s
        → Ensures Fine (complete show stringify to_number parse_json task content s)
    complete-Fine geo_file content s h =
        then_remember-Fine show stringify to_number (parse parse_json content) (λ v. v) s h.0
    complete-Fine layer content s h =
        then_remember-Fine show stringify to_number (parse parse_json content) (λ v. v) s h.0
    complete-Fine csv_file content s h =
        Ensures-bind (λ table. Unit {0}) Fine (parse_csv content) _
          (Ensures-any (parse_csv content)) λ table u. take_table-Fine s table h
    complete-Fine refresh content s h = h

    completed-Fine :
        (task : Option Task) (outcome : Checked Text) (s : Session)
        → Fine s
        → Fine (completed show stringify to_number parse_json task outcome s)
    unfolding IsKept
    completed-Fine none outcome s h = h
    completed-Fine (some task) outcome s h =
        let r : Checked Session =
          outcome >>= λ content. complete show stringify to_number parse_json task content s in
        let fine =
          guard-Fine show stringify to_number r s
            (Ensures-bind (λ content. Unit {0}) Fine outcome _ (Ensures-any outcome)
              (λ content u. complete-Fine task content s h))
            h in
        render-Fine show stringify to_number (with_task show stringify to_number none (guard r s))
          fine.0

    step-Fine :
        (e : Event) (s : Session) → Fine s → Fine (step show stringify to_number parse_json e s)
    unfolding step finish
    step-Fine edited_object s h = click_edit-Fine s h
    step-Fine kept s h = click_keep-Fine s h
    step-Fine joined s h = click_join-Fine s h
    step-Fine undone s h = click_undo-Fine s h
    step-Fine next_page s h = click_next-Fine s h
    step-Fine previous_page s h = click_previous-Fine s h
    step-Fine (filtered name value) s h = type_filter-Fine name value s h
    step-Fine (chosen_object index name) s h = choose_object-Fine index name s h
    step-Fine (typed value) s h = type_value-Fine value s h
    step-Fine (begun task) s h = begin-Fine task s h
    step-Fine (finished outcome) s h = completed-Fine s.task outcome s h
    step-Fine (handed next) s h = load-Fine next s h

    runs-Fine :
        (events : List Event) (s : Session)
        → Fine s
        → Fine (run show stringify to_number parse_json events s)
    unfolding run
    runs-Fine [] s h = h
    runs-Fine (e ∷ rest) s h =
        runs-Fine rest (step show stringify to_number parse_json e s) (step-Fine e s h)

    -- After any events on a new panel, the collection is one that `validate` accepts, and so are the
    -- states to go back to, of which there are at most 5; the page that is shown is one of the pages.
    pub run-Fine :
        (form : Form) (events : List Event)
        → IsKept
            (run show stringify to_number parse_json events (create show stringify to_number form))
          × IsShown show stringify to_number (
              run show stringify to_number parse_json events (create show stringify to_number form))
    run-Fine form events =
        runs-Fine events (create show stringify to_number form) (create-Fine form)
