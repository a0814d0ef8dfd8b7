-- ===== src/Workbench/Simplify.antt =====
-- `reduce` in `simplify` of cmd/web/geo-workbench.js: a line loses the points that lie within a
-- tolerance. The points are those of a checked line: their longitudes lie between -180 and 180, so
-- that a point takes fewer turns than the line has points. `metres` is 111195.08.
pub mod Ends
use osmmini.Base.{
  ℕ, zero, suc, ◌+◌, ◌-◌, ◌*◌, Bool, true, false, not, ◌&&◌, ◌||◌, ◌==◌, leb, ltb, any, Option,
  none, some, List, [], ◌∷◌, map, length, get_elem?, if◌then◌else◌, Result, ok, err, ◌>>=◌,
}
use osmmini.Json.{Value, number, array, cons, truthy}
use osmmini.Json.Numbers.{Number, nan, number_eq}
use osmmini.Planning.Arithmetic.{Arithmetic, int, Point}
use osmmini.Planning.Measure.{turn_down, turn_up}

-- `endless` stands for a loop that does not end within the rounds it is given.
pub data Trouble : Type 0 where
  not_regional too_complex endless : Trouble

-- The counters of `simplify`.
pub record Tally : Type 0 where
  pub operations : ℕ
  pub removed : ℕ
  pub lines : ℕ

abbrev pub operation_limit : ℕ
operation_limit = 2000000

abbrev position : Value → Point
position (array (cons (number lon) (cons (number lat) rest))) = (lon, lat)
position v = (nan, nan)

-- `points.filter((_, i) => keep.has(i))`
abbrev pub kept_points : ℕ → List ℕ → List Value → List Value
kept_points i keep [] = []
kept_points i keep (p ∷ rest) =
    let others = kept_points (suc i) keep rest in
    if any (λ j. j == i) keep then p ∷ others else others

module _ (math : Arithmetic) (metres : Number) where
  abbrev unwrap_from : ℕ → Number → List Point → List Point
  unwrap_from turns previous [] = []
  unwrap_from turns previous ((x, y) ∷ rest) =
      let lon = turn_up math turns previous (turn_down math turns previous x) in
      (lon, y) ∷ unwrap_from turns lon rest

  abbrev unwrapped : List Point → List Point
  unwrapped [] = []
  unwrapped (p ∷ rest) = unwrap_from (length (p ∷ rest)) p.0 (p ∷ rest)

  abbrev largest : Number → List Number → Number
  largest x [] = x
  largest x (y ∷ rest) = largest (math.max x y) rest

  abbrev smallest : Number → List Number → Number
  smallest x [] = x
  smallest x (y ∷ rest) = smallest (math.min x y) rest

  abbrev extent : (Number → List Number → Number) → List Number → Number
  extent f [] = nan
  extent f (x ∷ rest) = f x rest

  abbrev span : List Number → Number
  span xs = math.sub (extent largest xs) (extent smallest xs)

  abbrev is_regional : List Point → Bool
  is_regional points =
      let xs = map (λ (p : Point). p.0) points in
      let ys = map (λ (p : Point). p.1) points in
      not (
        math.less (int 5) (span xs)
        || (math.less (int 5) (span ys) || any (λ y. math.less (int 85) (math.abs y)) ys))

  abbrev projected_on : Number → Point → Point → Point
  projected_on scale (x, y) (lon, lat) =
      (math.mul (math.mul (math.sub lon x) scale) metres, math.mul (math.sub lat y) metres)

  abbrev pub projected : List Point → List Point
  projected [] = []
  projected (p ∷ rest) =
      let ys = map (λ (q : Point). q.1) (p ∷ rest) in
      let middle = math.div (math.add (extent largest ys) (extent smallest ys)) (int 2) in
      let latitude = math.div (math.mul middle math.pi) (int 180) in
      map (projected_on (math.cos latitude) p) (p ∷ rest)

  abbrev pub point_at : List Point → ℕ → Point
  point_at points i = or_origin (get_elem? points i)
    where
      or_origin : Option Point → Point
      or_origin none = (nan, nan)
      or_origin (some p) = p

  abbrev dot : Point → Point → Number
  dot (x, y) (z, w) = math.add (math.mul x z) (math.mul y w)

  abbrev minus : Point → Point → Point
  minus (x, y) (z, w) = (math.sub x z, math.sub y w)

  -- The square of the distance of a point from the piece between two others.
  abbrev distance_from : Point → Point → Point → Number
  distance_from a b p =
      let d = minus b a in
      let reach = dot d d in
      let ratio = math.div (dot (minus p a) d) reach in
      let t = if truthy (number reach) then math.max (int 0) (math.min (int 1) ratio) else int 0 in
      let off = minus (minus p a) (math.mul t d.0, math.mul t d.1) in dot off off

  -- The loop over the points between `first` and `last`, from `i` on.
  abbrev pub scan :
      List Point → Point → Point → ℕ → ℕ → ℕ → Number → Option ℕ → Result Trouble (ℕ × Option ℕ)
  scan points a b zero i operations best at = ok (operations, at)
  scan points a b (suc count) i operations best at =
      let d = distance_from a b (point_at points i) in
      let further = math.less best d in
      let rest =
        scan points a b count (suc i) (suc operations) (if further then d else best)
          (if further then some i else at) in
      if leb operation_limit operations then err too_complex else rest

  -- What follows in the loop over the stack, where `again` are its further rounds.
  abbrev pub split :
      (List (ℕ × ℕ) → List ℕ → ℕ → Result Trouble (ℕ × List ℕ))
      → ℕ
      → ℕ
      → List (ℕ × ℕ)
      → List ℕ
      → ℕ × Option ℕ
      → Result Trouble (ℕ × List ℕ)
  split again first last stack keep (operations, none) = again stack keep operations
  split again first last stack keep (operations, some at) =
      again ((at, last) ∷ (first, at) ∷ stack) (at ∷ keep) operations

  -- The loop over the stack, whose top stands first.
  abbrev pub loop :
      List Point → Number → ℕ → List (ℕ × ℕ) → List ℕ → ℕ → Result Trouble (ℕ × List ℕ)
  loop points best rounds [] keep operations = ok (operations, keep)
  loop points best zero (piece ∷ stack) keep operations = err endless
  loop points best (suc rounds) ((first, last) ∷ stack) keep operations =
      scan points (point_at points first) (point_at points last) (last - suc first) (suc first)
        operations best none
      >>= split (loop points best rounds) first last stack keep

  abbrev is_closed : List Value → Bool
  is_closed points =
      closed_at (point_at (map position points) 0)
        (point_at (map position points) (length points - 1))
    where
      closed_at : Point → Point → Bool
      closed_at (x, y) (z, w) = number_eq x z && number_eq y w

  abbrev pub taken_out : List Value → List Value → Tally → List Value × Tally
  taken_out points simplified t =
      if is_closed points && ltb (length simplified) 4
      then (points, t)
      else (simplified, record t { removed = t.removed + (length points - length simplified) })

  abbrev pub finished : List Value → Tally → ℕ × List ℕ → List Value × Tally
  finished points t (operations, keep) =
      taken_out points (kept_points 0 keep points) (record t { operations = operations })

  abbrev pub ends : List Value → List ℕ
  ends points = 0 ∷ (length points - 1) ∷ []

  abbrev pub flat : List Value → List Point
  flat points = unwrapped (map position points)

  abbrev pub regional : List Value → Bool
  regional points = is_regional (flat points)

  abbrev pub line_loop : Number → List Value → ℕ → Result Trouble (ℕ × List ℕ)
  line_loop tolerance points operations =
      loop (projected (flat points)) (math.mul tolerance tolerance) (2 * length points)
        ((0, length points - 1) ∷ []) (ends points) operations

  abbrev pub reduced : Number → List Value → Tally → Result Trouble (List Value × Tally)
  reduced tolerance points t =
      if not (regional points)
      then err not_regional
      else line_loop tolerance points t.operations >>= λ result. ok (finished points t result)

  unfoldable pub reduce : Number → List Value → Tally → Result Trouble (List Value × Tally)
  reduce tolerance points t =
      let counted = record t { lines = suc t.lines } in
      if ltb (length points) 3 || number_eq tolerance (int 0)
      then ok (points, counted)
      else reduced tolerance points counted
