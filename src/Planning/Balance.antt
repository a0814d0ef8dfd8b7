-- ===== src/Planning/Balance.antt =====
-- `inside`, `ringsIntersect` and `balance` of cmd/web/planning.js.
use osmmini.Base.{
  ℕ, suc, Bool, true, false, not, ◌&&◌, ◌||◌, List, [], ◌∷◌, map, keep, any, length, if◌then◌else◌,
  ok, ◌>>=◌, traverse,
}
use osmmini.Json.Numbers.{Number}
use osmmini.Planning.Arithmetic.{Arithmetic, int, Point}
use osmmini.Planning.Measure.{
  site, building, kind_eq, Item, Checked, indices, point_at, unwrap, on_segment, intersects,
  measure,
}

pub data Warning : Type 0 where
  no_single_site not_inside overlapping : Warning

pub data Verdict : Type 0 where
  warned : Warning → Verdict
  balanced : Number → Number → Number → Verdict

-- What `balance` returns; `balanced` has the areas of the site and of what is free, and the percentage
-- that is covered.
pub record Balance : Type 0 where
  pub footprint_m2 : Number
  pub floor_area_m2 : Number
  pub count : ℕ
  pub result : Verdict

module _ (math : Arithmetic) where
  -- The ray through `p` meets the edge from `a` to `b`.
  abbrev meets_ray : Point → Point → Point → Bool
  meets_ray p a b =
      let left = math.less p.1 a.1 in
      let right = math.less p.1 b.1 in
      not (left && right || not (left || right))
      && math.less p.0 (
          math.add (math.div (math.mul (math.sub b.0 a.0) (math.sub p.1 a.1)) (math.sub b.1 a.1))
            a.0)

  -- The loop over the edges, each with the point before it.
  abbrev inside_from : Point → Point → List Point → Bool → Bool
  inside_from p a [] odd = odd
  inside_from p a (b ∷ rest) odd =
      let next = inside_from p b rest (if meets_ray p a b then not odd else odd) in
      if on_segment math a b p then true else next

  abbrev last_point : Point → List Point → Point
  last_point p [] = p
  last_point p (q ∷ rest) = last_point q rest

  unfoldable pub inside : Point → List Point → Bool
  unfolding on_segment
  inside p [] = false
  inside p (q ∷ ring) = inside_from p (last_point q ring) (q ∷ ring) false

  unfoldable pub rings_intersect : List Point → List Point → Bool
  unfolding intersects
  rings_intersect a b =
      any
        (λ i.
          any
            (λ j.
              intersects math (point_at a i) (point_at a (suc i)) (point_at b j)
                (point_at b (suc j)))
            (indices (length b)))
        (indices (length a))

  -- A building, moved by whole turns to the side of the site.
  abbrev aligned : List Point → List Point → List Point
  aligned near p = move (
      math.mul (math.round (math.div (math.sub (point_at near 0).0 (point_at p 0).0) (int 360)))
        (int 360))
    where
      move : Number → List Point
      move offset = map (λ q. (math.add q.0 offset, q.1)) p

  abbrev touches : List Point → List Point → Bool
  touches p q = rings_intersect p q || (inside (point_at p 0) q || inside (point_at q 0) p)

  -- The buildings against the site and against those before them; the first trouble ends the loop.
  abbrev check_rings : List Point → List (List Point) → List (List Point) → Verdict → Verdict
  check_rings near before [] good = good
  check_rings near before (p ∷ rest) good =
      let next = check_rings near (p ∷ before) rest good in
      if any (λ q. not (inside q near)) p || rings_intersect p near
      then warned not_inside
      else (if any (touches p) before then warned overlapping else next)

  abbrev total : List Number → Number
  total xs = sum (int 0) xs
    where
      sum : Number → List Number → Number
      sum s [] = s
      sum s (x ∷ rest) = sum (math.add s x) rest

  abbrev with_site : List Item → Number → List Item → Checked Verdict
  with_site buildings footprint (s ∷ []) =
      let near = unwrap math s.points in
      let rings = map (λ b. aligned near (unwrap math b.points)) buildings in
      measure math s >>= λ m. ok (
        check_rings near [] rings (
          balanced m.area_m2 (math.max (int 0) (math.sub m.area_m2 footprint))
            (math.div (math.mul (int 100) footprint) m.area_m2)))
  with_site buildings footprint sites = ok (warned no_single_site)

  unfoldable pub balance : List Item → Checked Balance
  unfolding measure inside rings_intersect unwrap
  balance items =
      let buildings = keep (λ x. kind_eq x.kind building) items in
      let sites = keep (λ x. kind_eq x.kind site) items in
      traverse (measure math) buildings >>= λ ms.
      with_site buildings (total (map (λ m. m.area_m2) ms)) sites >>= λ result. ok (record {
        footprint_m2 = total (map (λ m. m.area_m2) ms);
        floor_area_m2 = total (map (λ m. m.floor_area_m2) ms);
        count = length buildings;
        result = result;
      })
