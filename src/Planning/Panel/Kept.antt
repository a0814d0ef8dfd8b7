-- ===== src/Planning/Panel/Kept.antt =====
-- What every step of the sketches of cmd/web/planning.js keeps.
use osmmini.Base.{
  ℕ, zero, suc, ◌≤◌, ◌<◌, ◌≡◌, refl, ap, ◌∙◌, inl, inr, Bool, true, false, not, ◌&&◌, ◌||◌, List,
  [], ◌∷◌, ◌++◌, Text, trim, take_units, high_half, length, length-append, is_nil, All, ltb, leb,
  ltb→lt, if◌then◌else◌, Bool-cases, &&-eq-true, arith, ok, err,
}
use osmmini.Json.Numbers.{Number, within}
use osmmini.Planning.Arithmetic.{Arithmetic, Point}
use osmmini.Planning.Measure.{
  Kind, line, site, building, kind_name, Item, Metrics, Checked, least_points, max_points, measure,
  finish_measure, check_place, check_reach, check_floors, sum_edges,
}
use osmmini.Planning.Items.{taken, max_items}
use osmmini.Planning.Panel.{
  Panel, Form, Event, Notice, click_start, choose_kind, type_form, click_undo, cancel, click_remove,
  click_finish, add_point, with_point, apart, within_reach, on_map, with_room, near_last,
  far_from_first, is_finite, wrapped, too_far_away, wrong_latitude, too_many_points, start, undo,
  escape, kind_chosen, form_typed, finish, remove, point, discarded, deleted, accepted,
  point_removed, draft_item, named, persist, stop, say, when, without_last, remove_at, finished,
  step, run,
}

pub take_units_le : (n : ℕ) (s : Text) → take_units n (take_units n s) ≡ take_units n s
take_units_le zero s = refl
take_units_le (suc n) [] = refl
take_units_le (suc zero) (c ∷ s) = elim (Bool-cases (ltb c 65536)) [
  | inl e ↦ rw (e, e) refl
  | inr e ↦ rw e (let small : ltb (high_half c) 65536 ≡ true = ground arith in rw small refl)
]
take_units_le (suc (suc n)) (c ∷ s) = elim (Bool-cases (ltb c 65536)) [
  | inl e ↦ rw (e, e) (ap (λ t. c ∷ t) (take_units_le (suc n) s))
  | inr e ↦ rw (e, e) (ap (λ t. c ∷ t) (take_units_le n s))
]

pub kind_name_le : (kind : Kind) → take_units 80 (kind_name kind) ≡ kind_name kind
unfolding kind_name
kind_name_le line = refl
kind_name_le site = refl
kind_name_le building = refl

named_le :
    (s : Text) (kind : Kind) → take_units 80 s ≡ s → take_units 80 (named s kind) ≡ named s kind
named_le [] kind h = kind_name_le kind
named_le (c ∷ s) kind h = h

All-append : {A : Type 0} (P : A → Type 0) (xs ys : List A) → All P xs → All P ys → All P (xs ++ ys)
All-append P [] ys a b = b
All-append P (x ∷ xs) ys a b = (a.0, All-append P xs ys a.1 b)

All-remove_at : (P : Item → Type 0) (i : ℕ) (xs : List Item) → All P xs → All P (remove_at i xs)
All-remove_at P i [] a = tt
All-remove_at P zero (x ∷ xs) a = a.1
All-remove_at P (suc i) (x ∷ xs) a = (a.0, All-remove_at P i xs a.1)

length-remove_at : (i : ℕ) (xs : List Item) → length (remove_at i xs) ≤ length xs
length-remove_at i [] = omega arith
length-remove_at zero (x ∷ xs) = omega arith
length-remove_at (suc i) (x ∷ xs) = omega (arith, length-remove_at i xs)

module _ (math : Arithmetic) where
  -- A sketch that `measure` accepts, with a name of at most 80 code units.
  unfoldable pub IsSketch : Item → Type 0
  IsSketch item =
      ((m : Metrics) × (measure math item ≡ ok m)) × (take_units 80 item.name ≡ item.name)

  measure-taken :
      (kind : Kind) (points : List Point) (name : Text) (floors : Number)
      → let item : Item = record { kind = kind; points = points; name = name; floors = floors } in
        measure math (taken item) ≡ measure math item
  unfolding measure check_place check_reach check_floors sum_edges finish_measure
  measure-taken line points name floors = refl
  measure-taken site points name floors = refl
  measure-taken building points name floors = refl

  pub sketch :
      (item : Item) (m : Metrics)
      → measure math item ≡ ok m
      → take_units 80 item.name ≡ item.name
      → IsSketch item
  unfolding IsSketch
  sketch item m e short = ((m, e), short)

  pub taken-IsSketch : (item : Item) → IsSketch item → IsSketch (taken item)
  unfolding IsSketch
  taken-IsSketch item ((m, e), short) =
      ((m, measure-taken item.kind item.points item.name item.floors ∙ e), short)

  draft_item-IsSketch :
      (form : Form) (draft : List Point) (m : Metrics)
      → measure math (draft_item form draft) ≡ ok m
      → IsSketch (draft_item form draft)
  unfolding IsSketch draft_item
  draft_item-IsSketch form draft m e = (
    (m, e),
    named_le (take_units 80 (trim form.name)) form.kind (take_units_le 80 (trim form.name)),
  )

  -- The sketches can be measured; there are at most 100 of them, and fewer while one is drawn.
  unfoldable pub IsPlan : Panel → Type 0
  IsPlan s =
      All IsSketch s.items
      × (length s.items ≤ max_items)
      × (s.active ≡ true → length s.items < max_items)

  if-IsPlan : (b : Bool) (t s : Panel) → IsPlan t → IsPlan s → IsPlan (if b then t else s)
  if-IsPlan true t s h k = h
  if-IsPlan false t s h k = k

  type_form-IsPlan :
      (name : Text) (floors : Number) (s : Panel) → IsPlan s → IsPlan (type_form name floors s)
  unfolding type_form IsPlan
  type_form-IsPlan name floors s h = h

  when-IsPlan : (b : Bool) (t s : Panel) → IsPlan t → IsPlan s → IsPlan (when b t s)
  when-IsPlan true t s h k = h
  when-IsPlan false t s h k = k

  persist-IsPlan : (room : Bool) (s : Panel) → IsPlan s → IsPlan (persist room s)
  unfolding IsPlan persist
  persist-IsPlan true s h = h
  persist-IsPlan false s h = h

  say-IsPlan : (message : Notice) (s : Panel) → IsPlan s → IsPlan (say message s)
  unfolding IsPlan
  say-IsPlan message s h = h

  click_start-IsPlan : (s : Panel) → IsPlan s → IsPlan (click_start s)
  unfolding IsPlan click_start
  click_start-IsPlan s h = elim (Bool-cases (not s.active && ltb (length s.items) max_items)) [
    | inl e ↦
        let (idle, room) = &&-eq-true (not s.active) (ltb (length s.items) max_items) e in
        let (sketches, few, below) = h in
        rw e (sketches, few, λ a. ltb→lt (length s.items) max_items room)
    | inr e ↦ rw e h
  ]

  choose_kind-IsPlan : (kind : Kind) (s : Panel) → IsPlan s → IsPlan (choose_kind kind s)
  unfolding IsPlan choose_kind
  choose_kind-IsPlan kind s h =
      when-IsPlan (not s.active) (record s { form = record s.form { kind = kind } }) s h h

  click_undo-IsPlan : (s : Panel) → IsPlan s → IsPlan (click_undo s)
  unfolding IsPlan click_undo
  click_undo-IsPlan s h =
      when-IsPlan (not (is_nil s.draft))
        (record s { draft = without_last s.draft; notice = point_removed }) s h h

  stop-IsPlan : (message : Notice) (s : Panel) → IsPlan s → IsPlan (stop message s)
  unfolding IsPlan
  stop-IsPlan message s (sketches, few, below) =
      (sketches, few, λ a. let clash : false ≡ true = a in cc)

  cancel-IsPlan : (s : Panel) → IsPlan s → IsPlan (cancel s)
  unfolding cancel
  cancel-IsPlan s h = when-IsPlan s.active (stop discarded s) s (stop-IsPlan discarded s h) h

  without-IsPlan :
      (i : ℕ) (s : Panel) → IsPlan s → IsPlan (record s { items = remove_at i s.items })
  unfolding IsPlan
  without-IsPlan i s (sketches, few, below) = (
    All-remove_at IsSketch i s.items sketches,
    omega (arith, few, length-remove_at i s.items),
    λ a. let lt = below a in omega (arith, lt, length-remove_at i s.items),
  )

  click_remove-IsPlan :
      (room : Bool) (i : ℕ) (s : Panel) → IsPlan s → IsPlan (click_remove room i s)
  unfolding click_remove
  click_remove-IsPlan room i s h =
      say-IsPlan deleted (persist room (record s { items = remove_at i s.items }))
        (persist-IsPlan room (record s { items = remove_at i s.items }) (without-IsPlan i s h))

  with_item-IsPlan :
      (item : Item) (s : Panel)
      → IsSketch item
      → s.active ≡ true
      → IsPlan s
      → IsPlan (stop accepted (record s { items = s.items ++ item ∷ [] }))
  unfolding IsPlan
  with_item-IsPlan item s good a (sketches, few, below) =
      let lt = below a in
      (
        All-append IsSketch s.items (item ∷ []) sketches (good, tt),
        omega (arith, lt, length-append s.items (item ∷ [])),
        λ b. let clash : false ≡ true = b in cc,
      )

  finished-IsPlan :
      (room : Bool) (s : Panel) (r : Checked Metrics)
      → measure math (draft_item s.form s.draft) ≡ r
      → s.active ≡ true
      → IsPlan s
      → IsPlan (finished math room (draft_item s.form s.draft) r s)
  unfolding persist IsPlan
  finished-IsPlan true s (ok m) e a h =
      with_item-IsPlan (draft_item s.form s.draft) s (draft_item-IsSketch s.form s.draft m e) a h
  finished-IsPlan false s (ok m) e a h =
      with_item-IsPlan (draft_item s.form s.draft) s (draft_item-IsSketch s.form s.draft m e) a h
  finished-IsPlan room s (err x) e a h = h

  click_finish-IsPlan : (room : Bool) (s : Panel) → IsPlan s → IsPlan (click_finish math room s)
  unfolding click_finish
  click_finish-IsPlan room s h =
      elim (Bool-cases (s.active && leb (least_points s.form.kind) (length s.draft))) [
        | inl e ↦ rw e (
            finished-IsPlan room s (measure math (draft_item s.form s.draft)) refl
              (&&-eq-true s.active (leb (least_points s.form.kind) (length s.draft)) e).0 h)
        | inr e ↦ rw e h
      ]

  -- A point changes neither the sketches nor whether one is drawn.
  add_point-IsPlan :
      (control : Bool) (lng lat : Number) (s : Panel)
      → IsPlan s
      → IsPlan (add_point math control lng lat s)
  unfolding add_point IsPlan
  add_point-IsPlan control lng lat s h =
      let p : Point = (wrapped math lng, lat) in
      let near = if-IsPlan (near_last math p s.draft) s (with_point math p s) h h in
      let far =
        if-IsPlan (far_from_first math p s.draft) (say too_far_away s) (apart math p s) h near in
      let off =
        if-IsPlan (not (is_finite math p.0 && within 85 p.1)) (say wrong_latitude s)
          (within_reach math p s) h far in
      let full =
        if-IsPlan (leb max_points (length s.draft)) (say too_many_points s) (on_map math p s) h
          off in
      if-IsPlan (not s.active || control) s (with_room math p s) h full

  step-IsPlan : (e : Event) (s : Panel) → IsPlan s → IsPlan (step math e s)
  unfolding step
  step-IsPlan start s h = click_start-IsPlan s h
  step-IsPlan undo s h = click_undo-IsPlan s h
  step-IsPlan escape s h = cancel-IsPlan s h
  step-IsPlan (kind_chosen kind) s h = choose_kind-IsPlan kind s h
  step-IsPlan (form_typed name floors) s h = type_form-IsPlan name floors s h
  step-IsPlan (finish room) s h = click_finish-IsPlan room s h
  step-IsPlan (remove room i) s h = click_remove-IsPlan room i s h
  step-IsPlan (point control lng lat) s h = add_point-IsPlan control lng lat s h

  pub runs-IsPlan : (events : List Event) (s : Panel) → IsPlan s → IsPlan (run math events s)
  unfolding run
  runs-IsPlan [] s h = h
  runs-IsPlan (e ∷ rest) s h = runs-IsPlan rest (step math e s) (step-IsPlan e s h)
