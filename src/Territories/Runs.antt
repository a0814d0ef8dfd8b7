-- ===== src/Territories/Runs.antt =====
-- The visits that cmd/web/app.js finds on a route, and the runs of equal territories along it.
use osmmini.Base.{
  ◌≡◌, refl, ap, ◌∙◌, inl, inr, Bool, none, some, List, [], ◌∷◌, ◌++◌, map, Text, text_eq,
  text_eq_iff, Bool-cases, if◌then◌else◌,
}
use osmmini.Json.Numbers.{Number}
use osmmini.Planning.Arithmetic.{Arithmetic, int, Point}
use osmmini.Territories.{
  Feature, Visit, Current, enter, visits_from, events_for_path, territory_at, haversine_meters,
}

-- The runs of equal texts in a list, each once; an empty text stands between runs. The first text is
-- the one before the list.
unfoldable pub runs_after : Text → List Text → List Text
runs_after before [] = []
runs_after before ([] ∷ rest) = runs_after [] rest
runs_after before ((c ∷ s) ∷ rest) =
    let more = runs_after (c ∷ s) rest in if text_eq before (c ∷ s) then more else (c ∷ s) ∷ more

unfoldable pub runs : List Text → List Text
unfolding runs_after
runs ids = runs_after [] ids

abbrev pub ids_of : List Visit → List Text
ids_of visits = map (λ v. v.territory_id) visits

ids_of-append : (u v : List Visit) → ids_of (u ++ v) ≡ ids_of u ++ ids_of v
ids_of-append [] v = refl
ids_of-append (x ∷ u) v = ap (λ r. x.territory_id ∷ r) (ids_of-append u v)

-- The runs that are still to come, with the one that is not ended yet.
abbrev runs_with : Current → List Text → List Text
runs_with none ids = runs_after [] ids
runs_with (some c) ids = c.0 ∷ runs_after c.0 ids

enter-runs :
    (t : Text) (km : Number) (current : Current) (ids : List Text)
    → ids_of (enter t km current).0 ++ runs_with (enter t km current).1 ids
      ≡ runs_with current (t ∷ ids)
unfolding enter runs_after
enter-runs [] km none ids = refl
enter-runs [] km (some c) ids = refl
enter-runs (c ∷ s) km none ids = refl
enter-runs (c ∷ s) km (some (id, at)) ids = elim (Bool-cases (text_eq id (c ∷ s))) [
  | inl e ↦ rw e (ap (λ t. id ∷ runs_after t ids) ((text_eq_iff id (c ∷ s)).0 e))
  | inr e ↦ rw e refl
]

module _ (math : Arithmetic) (atan2 : Number → Number → Number) (earth : Number)
    (before : Text → Text → Bool) where
  abbrev pub places : List Feature → List Point → List Text
  places features path = map (territory_at math atan2 earth before features) path

  visits_from-runs :
      (features : List Feature) (p : Point) (km : Number) (path : List Point) (current : Current)
      → ids_of (visits_from math atan2 earth before features p km path current)
        ≡ runs_with current (places features path)
  unfolding visits_from runs_after
  visits_from-runs features p km [] none = refl
  visits_from-runs features p km [] (some c) = refl
  visits_from-runs features p km (q ∷ path) current =
      let on = math.add km (math.div (haversine_meters math atan2 earth p q) (int 1000)) in
      let t = territory_at math atan2 earth before features q in
      let next = enter t on current in
      ids_of-append next.0 (visits_from math atan2 earth before features q on path next.1)
      ∙ ap (λ r. ids_of next.0 ++ r) (visits_from-runs features q on path next.1)
      ∙ enter-runs t on current (places features path)

  -- The visits of a route are, in their order, the runs of points in one and the same territory:
  -- territories that follow each other directly or over points outside of all are told apart, and a
  -- territory that the route enters again has a visit for each time.
  pub events_for_path-runs :
      (features : List Feature) (path : List Point)
      → ids_of (events_for_path math atan2 earth before features path) ≡ runs (places features path)
  unfolding events_for_path runs
  events_for_path-runs features [] = refl
  events_for_path-runs features (p ∷ path) =
      let t = territory_at math atan2 earth before features p in
      let next = enter t (int 0) none in
      ids_of-append next.0 (visits_from math atan2 earth before features p (int 0) path next.1)
      ∙ ap (λ r. ids_of next.0 ++ r) (visits_from-runs features p (int 0) path next.1)
      ∙ enter-runs t (int 0) none (places features path)
