-- ===== src/Planning/Measure.antt =====
-- `distance`, `unwrap`, the tests on edges and rings, and `measure` of cmd/web/planning.js.
use osmmini.Base.{
  ℕ, zero, suc, ◌-◌, ◌%◌, Bool, true, false, not, ◌&&◌, ◌||◌, Option, none, some, List, [], ◌∷◌,
  Text, codes, length, any, all, ltb, leb, ◌==◌, get_elem?, if◌then◌else◌, Result, ok, err, ◌>>=◌,
}
use osmmini.Base.Int.{pos}
use osmmini.Json.Numbers.{Number, whole, nan, within}
use osmmini.Planning.Arithmetic.{Arithmetic, int, Point}

pub data Kind : Type 0 where
  line site building : Kind

-- `kinds`
unfoldable pub kind_name : Kind → Text
kind_name line = codes "Strecke"
kind_name site = codes "Bezugsfläche"
kind_name building = codes "Gebäude"

abbrev pub kind_eq : Kind → Kind → Bool
kind_eq line line = true
kind_eq site site = true
kind_eq building building = true
kind_eq _ _ = false

pub record Item : Type 0 where
  pub kind : Kind
  pub points : List Point
  pub name : Text
  pub floors : Number

-- The errors, one constructor for each message.
pub data Problem : Type 0 where
  unknown_kind wrong_count invalid_point too_far wrong_floors short_edge crossing_edges : Problem
  folded_edge no_area invalid_draft no_json : Problem

abbrev pub Checked : Type 0 → Type 0
Checked A = Result Problem A

pub record Metrics : Type 0 where
  pub length_m : Number
  pub area_m2 : Number
  pub floor_area_m2 : Number

abbrev pub closed : Kind → Bool
closed kind = not (kind_eq kind line)

abbrev pub least_points : Kind → ℕ
least_points line = 2
least_points _ = 3

abbrev pub max_points : ℕ
max_points = 500

-- `0, 1, … n - 1`
abbrev pub indices_from : ℕ → ℕ → List ℕ
indices_from i zero = []
indices_from i (suc n) = i ∷ indices_from (suc i) n

abbrev pub indices : ℕ → List ℕ
indices n = indices_from 0 n

abbrev or_nowhere : Option Point → Point
or_nowhere none = (nan, nan)
or_nowhere (some p) = p

-- `ring[i % ring.length]`
abbrev pub point_at : List Point → ℕ → Point
point_at ring i = or_nowhere (get_elem? ring (i % length ring))

-- `Number.isInteger(floors) && floors >= 1 && floors <= 100`
abbrev pub good_floors : Number → Bool
good_floors (whole (pos n)) = leb 1 n && leb n 100
good_floors _ = false

abbrev pub good_point : Point → Bool
good_point p = within 180 p.0 && within 85 p.1

-- Each round checks one member; the first error ends the loop.
unfoldable pub for_each {ℓ} :
    {A : Type ℓ} {S : Type 0} → (S → A → Checked S) → S → List A → Checked S
for_each step state [] = ok state
for_each step state (x ∷ rest) = step state x >>= λ next. for_each step next rest

module _ (math : Arithmetic) where
  abbrev radian : Number
  radian = math.div math.pi (int 180)

  abbrev square : Number → Number
  square x = math.mul x x

  abbrev half_angle : Number → Number
  half_angle d = math.sin (math.div (math.mul d radian) (int 2))

  unfoldable pub haversine : Point → Point → Number
  haversine a b = math.add (square (half_angle (math.sub b.1 a.1))) (
      math.mul (math.mul (math.cos (math.mul a.1 radian)) (math.cos (math.mul b.1 radian)))
        (square (half_angle (math.sub b.0 a.0))))

  unfoldable pub distance : Point → Point → Number
  unfolding haversine
  distance a b =
      math.mul (math.mul (int 2) math.radius)
        (math.asin (math.sqrt (math.min (int 1) (haversine a b))))

  -- The two loops that bring `x` within 180 degrees of `before`, for at most `turns` rounds each.
  abbrev pub turn_down : ℕ → Number → Number → Number
  turn_down zero before x = x
  turn_down (suc turns) before x =
      let rest = turn_down turns before (math.sub x (int 360)) in
      if math.less (int 180) (math.sub x before) then rest else x

  abbrev pub turn_up : ℕ → Number → Number → Number
  turn_up zero before x = x
  turn_up (suc turns) before x =
      let rest = turn_up turns before (math.add x (int 360)) in
      if math.less (math.sub x before) (math.sub (int 0) (int 180)) then rest else x

  abbrev unwrap_from : Point → List Point → List Point
  unwrap_from before [] = []
  unwrap_from before (p ∷ rest) =
      let q : Point = (turn_up max_points before.0 (turn_down max_points before.0 p.0), p.1) in
      q ∷ unwrap_from q rest

  unfoldable pub unwrap : List Point → List Point
  unwrap [] = []
  unwrap (p ∷ rest) = p ∷ unwrap_from p rest

  unfoldable pub cross : Point → Point → Point → Number
  cross a b c =
      math.sub (math.mul (math.sub b.0 a.0) (math.sub c.1 a.1))
        (math.mul (math.sub b.1 a.1) (math.sub c.0 a.0))

  abbrev at_most : Number → Number → Bool
  at_most x y = math.leq x y

  unfoldable pub on_segment : Point → Point → Point → Bool
  unfolding cross
  on_segment a b p =
      math.less (math.abs (cross a b p)) math.tiny
      && (at_most (math.sub (math.min a.0 b.0) math.tiny) p.0
          && (at_most p.0 (math.add (math.max a.0 b.0) math.tiny)
              && (at_most (math.sub (math.min a.1 b.1) math.tiny) p.1
                  && at_most p.1 (math.add (math.max a.1 b.1) math.tiny))))

  abbrev opposite : Number → Number → Bool
  opposite x y = math.less (math.mul x y) (int 0)

  unfoldable pub intersects : Point → Point → Point → Point → Bool
  unfolding cross on_segment
  intersects a b c d =
      opposite (cross a b c) (cross a b d) && opposite (cross c d a) (cross c d b)
      || (on_segment a b c || (on_segment a b d || (on_segment c d a || on_segment c d b)))

  -- The inner loop: no later edge but the next one meets edge `i`.
  abbrev crossed : List Point → ℕ → Bool
  crossed p i = any meets (indices (length p))
    where
      apart : ℕ → Bool
      apart j = ltb i j && not (j == suc i || (i == 0 && suc j == length p))

      meets : ℕ → Bool
      meets j =
          apart j
          && intersects (point_at p i) (point_at p (suc i)) (point_at p j) (point_at p (suc j))

  -- One round, with the length and the area so far.
  unfoldable pub measure_edge : Kind → List Point → Number × Number → ℕ → Checked (Number × Number)
  unfolding distance intersects on_segment
  measure_edge kind p sums i =
      let a = point_at p i in
      let b = point_at p (suc i) in
      let next : Number × Number = (
        math.add sums.0 (distance a b),
        math.add sums.1 (
            math.mul (math.mul (math.sub b.0 a.0) radian)
              (math.add (math.sin (math.mul a.1 radian)) (math.sin (math.mul b.1 radian)))),
      ) in
      if math.less (distance a b) math.centimetre
      then err short_edge
      else (if closed kind && crossed p i
          then err crossing_edges
          else (if closed kind && on_segment a b (point_at p (suc (suc i)))
              then err folded_edge
              else ok next))

  abbrev edge_count : Kind → List Point → ℕ
  edge_count kind p = if closed kind then length p else length p - 1

  abbrev area_of : Kind → Number → Number
  area_of kind sum =
      if closed kind
      then math.div (math.mul (math.mul (math.abs sum) math.radius) math.radius) (int 2)
      else int 0

  unfoldable pub finish_measure : Item → Number × Number → Checked Metrics
  finish_measure item sums =
      let area = area_of item.kind sums.1 in
      if closed item.kind && math.less area math.centimetre
      then err no_area
      else ok (record {
        length_m = sums.0;
        area_m2 = area;
        floor_area_m2 = if kind_eq item.kind building then math.mul area item.floors else int 0;
      })

  abbrev pub far : List Point → Bool
  far [] = false
  far (p ∷ rest) = any (λ q. math.less (int 20000) (distance p q)) (p ∷ rest)

  abbrev pub wrong_size : Item → Bool
  wrong_size item =
      ltb (length item.points) (least_points item.kind) || ltb max_points (length item.points)

  -- `measure`: the tests, one after the other, and the sums over the edges.
  unfoldable pub sum_edges : Item → Checked Metrics
  unfolding for_each measure_edge finish_measure unwrap
  sum_edges item =
      let p = unwrap item.points in
      for_each (measure_edge item.kind p) (int 0, int 0) (indices (edge_count item.kind p))
      >>= finish_measure item

  unfoldable pub check_floors : Item → Checked Metrics
  unfolding sum_edges
  check_floors item =
      if kind_eq item.kind building && not (good_floors item.floors)
      then err wrong_floors
      else sum_edges item

  unfoldable pub check_reach : Item → Checked Metrics
  unfolding check_floors distance
  check_reach item = if far item.points then err too_far else check_floors item

  unfoldable pub check_place : Item → Checked Metrics
  unfolding check_reach
  check_place item =
      if not (all good_point item.points) then err invalid_point else check_reach item

  unfoldable pub measure : Item → Checked Metrics
  unfolding check_place
  measure item = if wrong_size item then err wrong_count else check_place item
