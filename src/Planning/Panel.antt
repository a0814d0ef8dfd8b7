-- ===== src/Planning/Panel.antt =====
-- `create` of cmd/web/planning.js: the sketches, the one that is drawn, and what is stored. A JSON
-- text that is stored stands for its value; `room` says whether the browser stores it.
pub mod Kept
pub mod Reached
pub mod Reloaded
use osmmini.Base.{
  ℕ, zero, suc, ◌+◌, Bool, true, false, not, ◌&&◌, ◌||◌, Option, none, some, List, [], ◌∷◌, ◌++◌,
  Text, trim, take_units, length, is_nil, ltb, leb, if◌then◌else◌, ok, err,
}
use osmmini.Json.{Value}
use osmmini.Json.Numbers.{Number, whole, between, within}
use osmmini.Planning.Arithmetic.{Arithmetic, int, Point}
use osmmini.Planning.Measure.{
  Kind, kind_name, kind_eq, building, Item, Metrics, Problem, Checked, measure, distance,
  least_points, max_points,
}
use osmmini.Planning.Items.{restore, stored_value, max_items}

pub data Notice : Type 0 where
  ready started point_removed discarded accepted deleted : Notice
  too_many_points wrong_latitude too_far_away : Notice
  measured : Metrics → Notice
  failed : Problem → Notice

-- The values of the panel's controls.
pub record Form : Type 0 where
  pub kind : Kind
  pub name : Text
  pub floors : Number

-- `unsaved` is set where the last storing, or the loading, failed.
pub record Panel : Type 0 where
  pub items : List Item
  pub draft : List Point
  pub active : Bool
  pub form : Form
  pub stored : Option Value
  pub unsaved : Bool
  pub notice : Notice

-- `draftItem`
abbrev pub named : Text → Kind → Text
named [] kind = kind_name kind
named (c ∷ s) kind = c ∷ s

unfoldable pub draft_item : Form → List Point → Item
unfolding kind_name
draft_item form draft = record {
  kind = form.kind;
  points = draft;
  name = named (take_units 80 (trim form.name)) form.kind;
  floors = form.floors;
}

-- `persist`
unfoldable pub persist : Bool → Panel → Panel
unfolding stored_value
persist true s = record s { stored = some (stored_value s.items); unsaved = false }
persist false s = record s { unsaved = true }

-- `stop`
abbrev pub stop : Notice → Panel → Panel
stop message s = record s { active = false; draft = []; notice = message }

abbrev pub say : Notice → Panel → Panel
say message s = record s { notice = message }

-- A button that is off takes no click.
abbrev pub when : Bool → Panel → Panel → Panel
when true t s = t
when false t s = s

abbrev pub begun : Panel → Panel
begun s = record s { active = true; draft = []; notice = started }

unfoldable pub click_start : Panel → Panel
click_start s = when (not s.active && ltb (length s.items) max_items) (begun s) s

unfoldable pub choose_kind : Kind → Panel → Panel
choose_kind kind s = when (not s.active) (record s { form = record s.form { kind = kind } }) s

unfoldable pub type_form : Text → Number → Panel → Panel
type_form name floors s = record s { form = record s.form { name = name; floors = floors } }

-- `draft.pop()`
abbrev pub without_last : List Point → List Point
without_last [] = []
without_last (p ∷ []) = []
without_last (p ∷ q ∷ rest) = p ∷ without_last (q ∷ rest)

unfoldable pub click_undo : Panel → Panel
click_undo s =
    when (not (is_nil s.draft)) (record s { draft = without_last s.draft; notice = point_removed })
      s

-- The button and the Escape key.
unfoldable pub cancel : Panel → Panel
cancel s = when s.active (stop discarded s) s

-- `items.splice(index, 1)`
abbrev pub remove_at : ℕ → List Item → List Item
remove_at i [] = []
remove_at zero (x ∷ xs) = xs
remove_at (suc i) (x ∷ xs) = x ∷ remove_at i xs

unfoldable pub click_remove : Bool → ℕ → Panel → Panel
unfolding persist
click_remove room i s = say deleted (persist room (record s { items = remove_at i s.items }))

pub data Event : Type 0 where
  start undo escape : Event
  kind_chosen : Kind → Event
  form_typed : Text → Number → Event
  finish : Bool → Event
  remove : Bool → ℕ → Event
  point : Bool → Number → Number → Event

module _ (math : Arithmetic) where
  abbrev pub finished : Bool → Item → Checked Metrics → Panel → Panel
  finished room item (ok m) s =
      stop accepted (persist room (record s { items = s.items ++ item ∷ [] }))
  finished room item (err e) s = say (failed e) s

  unfoldable pub click_finish : Bool → Panel → Panel
  unfolding draft_item measure persist
  click_finish room s =
      let item = draft_item s.form s.draft in
      when (s.active && leb (least_points s.form.kind) (length s.draft))
        (finished room item (measure math item) s) s

  -- A longitude between -180 and 180 degrees.
  abbrev pub wrapped : Number → Number
  wrapped x =
      math.sub (math.rem (math.add (math.rem (math.add x (int 180)) (int 360)) (int 360)) (int 360))
        (int 180)

  abbrev pub far_from_first : Point → List Point → Bool
  far_from_first p [] = false
  far_from_first p (q ∷ rest) = math.less (int 20000) (distance math q p)

  abbrev pub near_last : Point → List Point → Bool
  near_last p [] = false
  near_last p (q ∷ []) = math.less (distance math q p) math.centimetre
  near_last p (q ∷ r ∷ rest) = near_last p (r ∷ rest)

  abbrev judged : Checked Metrics → Notice
  judged (ok m) = measured m
  judged (err e) = failed e

  abbrev pub with_point : Point → Panel → Panel
  with_point p s = record s {
    draft = s.draft ++ p ∷ [];
    notice = judged (measure math (draft_item s.form (s.draft ++ p ∷ [])));
  }

  abbrev pub is_finite : Number → Bool
  is_finite (whole i) = true
  is_finite (between i f) = true
  is_finite n = false

  -- The tests on a point, one after the other.
  abbrev pub apart : Point → Panel → Panel
  apart p s = if near_last p s.draft then s else with_point p s

  abbrev pub within_reach : Point → Panel → Panel
  within_reach p s = if far_from_first p s.draft then say too_far_away s else apart p s

  abbrev pub on_map : Point → Panel → Panel
  on_map p s =
      if not (is_finite p.0 && within 85 p.1) then say wrong_latitude s else within_reach p s

  abbrev pub with_room : Point → Panel → Panel
  with_room p s = if leb max_points (length s.draft) then say too_many_points s else on_map p s

  -- `addPoint`; `control` says whether a marker or a popup was hit.
  unfoldable pub add_point : Bool → Number → Number → Panel → Panel
  unfolding measure distance draft_item
  add_point control lng lat s =
      if not s.active || control then s else with_room (wrapped lng, lat) s

  unfoldable pub step : Event → Panel → Panel
  unfolding click_start click_undo cancel choose_kind type_form click_finish click_remove add_point
  step start s = click_start s
  step undo s = click_undo s
  step escape s = cancel s
  step (kind_chosen kind) s = choose_kind kind s
  step (form_typed name floors) s = type_form name floors s
  step (finish room) s = click_finish room s
  step (remove room i) s = click_remove room i s
  step (point control lng lat) s = add_point control lng lat s

  unfoldable pub run : List Event → Panel → Panel
  unfolding step
  run [] s = s
  run (e ∷ rest) s = run rest (step e s)

  module _ (show : Value → Text) where
    abbrev pub loaded : Form → Option Value → Checked (List Item) → Panel
    loaded form stored (ok sketches) = record {
      items = sketches;
      draft = [];
      active = false;
      form = form;
      stored = stored;
      unsaved = false;
      notice = ready;
    }
    loaded form stored (err e) = record {
      items = [];
      draft = [];
      active = false;
      form = form;
      stored = stored;
      unsaved = true;
      notice = ready;
    }

    abbrev pub loading : Option Value → Checked (List Item)
    loading none = ok []
    loading (some v) = restore math show v

    -- The start, on what the browser has stored.
    unfoldable pub create : Form → Option Value → Panel
    unfolding restore
    create form stored = loaded form stored (loading stored)
