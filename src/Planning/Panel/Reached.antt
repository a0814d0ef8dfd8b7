-- ===== src/Planning/Panel/Reached.antt =====
-- What holds of the sketches of cmd/web/planning.js when they are loaded, and after any events.
use osmmini.Base.{
  ◌≤◌, ◌≡◌, inl, inr, Bool, true, false, not, ◌||◌, Option, none, some, List, codes, Text,
  take_units, length, All, ltb, if◌then◌else◌, Bool-cases, arith, ok, err, ◌>>=◌, traverse, Ensures,
  Ensures-bind, Ensures-of_eq, Ensures-weaken, Ensures-traverse,
}
use osmmini.Json.{Value, null, boolean, object, string, field, truthy, items, array, number}
use osmmini.Planning.Arithmetic.{Arithmetic}
use osmmini.Planning.Measure.{Kind, kind_name, Item, Checked, measure, invalid_draft}
use osmmini.Planning.Items.{
  restore, restore_item, taken, max_items, read_as, read_kind, read_name, text_of, restore_list,
  is_version, read_item,
}
use osmmini.Planning.Panel.{Form, Event, loaded, loading, run, create}
use osmmini.Planning.Panel.Kept.{
  IsSketch, IsPlan, take_units_le, sketch, taken-IsSketch, runs-IsPlan,
}

module _ (math : Arithmetic) where
  read_name_le :
      (show : Value → Text) (kind : Kind) (v : Option Value)
      → take_units 80 (read_name math show kind v) ≡ read_name math show kind v
  read_name_le show kind none = take_units_le 80 (kind_name kind)
  read_name_le show kind (some v) =
      take_units_le 80 (if truthy v then text_of math show v else kind_name kind)

  measured-IsSketch :
      (item : Item)
      → take_units 80 item.name ≡ item.name
      → Ensures (IsSketch math) (measure math item >>= λ m. ok (taken item))
  measured-IsSketch item short =
      Ensures-bind (λ m. measure math item ≡ ok m) (IsSketch math) (measure math item)
        (λ m. ok (taken item)) (Ensures-of_eq _ (measure math item) (λ m e. e))
        λ m e. taken-IsSketch math item (sketch math item m e short)

  restore_item-IsSketch :
      (show : Value → Text) (v : Value) → Ensures (IsSketch math) (restore_item math show v)
  unfolding restore_item
  restore_item-IsSketch show v = read_as-IsSketch (read_kind math (field (codes "kind") v))
    where
      read_as-IsSketch : (o : Option Kind) → Ensures (IsSketch math) (read_as math show v o)
      read_as-IsSketch none = tt
      read_as-IsSketch (some kind) =
          measured-IsSketch (read_item math show v kind)
            (read_name_le show kind (field (codes "name") v))

  abbrev Sketches : List Item → Type 0
  Sketches sketches = All (IsSketch math) sketches × (length sketches ≤ max_items)

  restore_list-Sketches :
      (show : Value → Text) (v : Option Value) → Ensures Sketches (restore_list math show v)
  restore_list-Sketches show (some (array vs)) =
      elim (Bool-cases (ltb max_items (length (items vs)))) [
        | inl e ↦ rw e tt
        | inr e ↦ rw e (
            let few : length (items vs) ≤ max_items = ground arith in
            Ensures-weaken _ Sketches (traverse (restore_item math show) (items vs))
              (Ensures-traverse (IsSketch math) (restore_item math show) (items vs)
                (restore_item-IsSketch show))
              λ sketches h. (h.0, omega (arith, few, h.1)))
      ]
  restore_list-Sketches show none = tt
  restore_list-Sketches show (some null) = tt
  restore_list-Sketches show (some (boolean b)) = tt
  restore_list-Sketches show (some (number n)) = tt
  restore_list-Sketches show (some (string s)) = tt
  restore_list-Sketches show (some (object fs)) = tt

  restore-Sketches : (show : Value → Text) (v : Value) → Ensures Sketches (restore math show v)
  unfolding restore
  restore-Sketches show v =
      if_err-Ensures (not (truthy v) || not (is_version math show (field (codes "version") v)))
        (restore_list math show (field (codes "items") v))
        (restore_list-Sketches show (field (codes "items") v))
    where
      if_err-Ensures :
          (b : Bool) (r : Checked (List Item))
          → Ensures Sketches r
          → Ensures Sketches (if b then err invalid_draft else r)
      if_err-Ensures true r h = tt
      if_err-Ensures false r h = h

  loading-Sketches :
      (show : Value → Text) (stored : Option Value) → Ensures Sketches (loading math show stored)
  loading-Sketches show none = (tt, omega arith)
  loading-Sketches show (some v) = restore-Sketches show v

  loaded-IsPlan :
      (show : Value → Text) (form : Form) (stored : Option Value) (r : Checked (List Item))
      → Ensures Sketches r
      → IsPlan math (loaded math show form stored r)
  unfolding IsPlan
  loaded-IsPlan show form stored (ok sketches) h =
      (h.0, h.1, λ a. let clash : false ≡ true = a in cc)
  loaded-IsPlan show form stored (err e) h =
      (tt, omega arith, λ a. let clash : false ≡ true = a in cc)

  -- Whatever the browser has stored, and after any events, every sketch can be measured and has a
  -- name of at most 80 code units, there are at most 100 sketches, and fewer while one is drawn.
  pub run-IsPlan :
      (show : Value → Text) (form : Form) (stored : Option Value) (events : List Event)
      → IsPlan math (run math events (create math show form stored))
  unfolding create
  run-IsPlan show form stored events =
      runs-IsPlan math events (create math show form stored)
        (loaded-IsPlan show form stored (loading math show stored) (loading-Sketches show stored))
