-- ===== src/OfflineStyle/Kept.antt =====
-- What `normalize` of cmd/web/offline-style.js gives stays as it is when it is stored and loaded.
use osmmini.Base.{
  ◌≡◌, ◌≤◌, All, Holds, refl, ap, ap₂, ◌∙◌, true, false, ltb, Option, none, some, List, [], ◌∷◌,
  Text, codes, text_eq, find_key, Bool-cases, inl, inr, arith,
}
use osmmini.Base.Int.{pos}
use osmmini.Json.{Value, null, boolean, number, string, array, object, to_fields, lookup}
use osmmini.Json.Numbers.{Number, whole, between, finite}
use osmmini.OfflineStyle.{
  Style, Places, with_entry, standard, presets, normalize, normalized, taken, taken_with, text_of,
  is_colour, clamp, clamp_value, below,
}
use osmmini.OfflineStyle.Editor.{
  Event, edited, chosen, save_clicked, reset_clicked, activated, Editor, input_value, run, step,
  create, edit, choose, save, read_stored, chosen_style,
}

module _ (low high : Number) where
  -- Bounds that do not cross.
  abbrev AreBounds : Type 0
  AreBounds =
      (finite low ≡ true)
      × (finite high ≡ true)
      × (below low low ≡ false)
      × (below high low ≡ false)
      × (below high high ≡ false)

  clamp-clamp : (x : Number) → AreBounds → clamp low high (clamp low high x) ≡ clamp low high x
  clamp-clamp x (fl, fh, ll, hl, hh) = elim (Bool-cases (below x low)) [
    | inl e ↦ rw (e, ll, hl) refl
    | inr e ↦ elim (Bool-cases (below high x)) [
      | inl q ↦ rw (e, q, hl, hh) refl
      | inr q ↦ rw (e, q, e, q) refl
    ]
  ]

  finite-clamp : (x : Number) → AreBounds → finite x ≡ true → finite (clamp low high x) ≡ true
  finite-clamp x (fl, fh, ll, hl, hh) f = elim (Bool-cases (below x low)) [
    | inl e ↦ rw e fl
    | inr e ↦ elim (Bool-cases (below high x)) [ inl q ↦ rw (e, q) fh | inr q ↦ rw (e, q) f ]
  ]

  clamp_value-clamp_value :
      (other v : Value)
      → AreBounds
      → clamp_value low high other other ≡ other
      → clamp_value low high other (clamp_value low high other v) ≡ clamp_value low high other v
  clamp_value-clamp_value other (number x) bounds h = elim (Bool-cases (finite x)) [
    | inl e ↦ rw (e, finite-clamp x bounds e, clamp-clamp x bounds) refl
    | inr e ↦ rw e h
  ]
  clamp_value-clamp_value other null bounds h = h
  clamp_value-clamp_value other (boolean b) bounds h = h
  clamp_value-clamp_value other (string s) bounds h = h
  clamp_value-clamp_value other (array vs) bounds h = h
  clamp_value-clamp_value other (object fs) bounds h = h

module _ (show : Value → Text) (at : Places) where
  -- A value that is taken for what it is.
  abbrev IsTaken : Text → Value → Value → Type 0
  IsTaken name other v = taken_with show at name other v ≡ v

  taken-IsTaken :
      (name : Text) (other : Value) (v : Option Value)
      → IsTaken name other other
      → IsTaken name other (taken show at name other v)
  taken-IsTaken name other none h = h
  taken-IsTaken name (string s) (some v) h = elim (Bool-cases (is_colour (text_of show at v))) [
    | inl e ↦ rw (e, e) refl
    | inr e ↦ rw e h
  ]
  taken-IsTaken name (number n) (some v) h = elim (Bool-cases (text_eq name (codes "roadWidth"))) [
    | inl e ↦ rw e (
        clamp_value-clamp_value (between (pos 0) at.six_tenths) (whole (pos 2)) (number n) v
          (refl, refl, ground arith, refl, refl) (rw e at h))
    | inr e ↦ rw e (
        clamp_value-clamp_value (between (pos 0) at.eight_tenths) (between (pos 1) at.three_halves)
          (number n) v (refl, refl, ground arith, ground arith, ground arith) (rw e at h))
  ]
  taken-IsTaken name (boolean b) (some (boolean c)) h = refl
  taken-IsTaken name (boolean b) (some null) h = h
  taken-IsTaken name (boolean b) (some (number n)) h = h
  taken-IsTaken name (boolean b) (some (string s)) h = h
  taken-IsTaken name (boolean b) (some (array vs)) h = h
  taken-IsTaken name (boolean b) (some (object fs)) h = h
  taken-IsTaken name null (some v) h = h
  taken-IsTaken name (array vs) (some v) h = h
  taken-IsTaken name (object fs) (some v) h = h

  -- An entry that can be read again as it was taken.
  abbrev IsRead : (Text → Option Value) → (Text → Option Value) → Text × Value → Type 0
  IsRead read again (name, other) =
      (again name ≡ some (taken show at name other (read name))) × IsTaken name other other

  normalized-normalized :
      (read again : Text → Option Value) (s : Style)
      → All (IsRead read again) s
      → normalized show at again s ≡ normalized show at read s
  normalized-normalized read again [] h = refl
  normalized-normalized read again ((name, other) ∷ rest) ((e, i), h) =
      ap₂ (λ v r. (name, v) ∷ r)
        (ap (taken show at name other) e ∙ taken-IsTaken name other (read name) i)
        (normalized-normalized read again rest h)

  unfoldable pub IsNormal : Style → Type 0
  unfolding normalize
  IsNormal style = normalize show at (λ k. find_key k style) ≡ style

  standard-IsRead :
      (read : Text → Option Value)
      → All (IsRead read (λ k. find_key k (normalized show at read standard))) standard
  unfolding standard
  standard-IsRead read = search

  normalize-IsNormal : (read : Text → Option Value) → IsNormal (normalize show at read)
  unfolding IsNormal normalize
  normalize-IsNormal read =
      normalized-normalized read (λ k. find_key k (normalized show at read standard)) standard
        (standard-IsRead read)

  -- Each preset is as `normalize` leaves it, since 1.15 is not more than 1.5.
  presets-IsNormal :
      at.atlas_width ≤ at.three_halves
      → All (λ (entry : Text × Style). IsNormal entry.1) (presets at)
  unfolding presets standard IsNormal normalize
  presets-IsNormal h =
      let e : ltb at.three_halves at.atlas_width ≡ false = ground arith in
      (refl, (refl, (refl, (rw e refl, tt))))

  found-IsNormal :
      (name : Text) (table : List (Text × Style))
      → All (λ (entry : Text × Style). IsNormal entry.1) table
      → Holds IsNormal (find_key name table)
  found-IsNormal name [] h = tt
  found-IsNormal name ((key, style) ∷ rest) h = elim (Bool-cases (text_eq key name)) [
    | inl e ↦ rw e h.0
    | inr e ↦ rw e (found-IsNormal name rest h.1)
  ]

  chosen_style-IsNormal :
      (name : Text) (style : Option Style) (e : Editor)
      → Holds IsNormal style
      → IsNormal e.draft
      → IsNormal (chosen_style show at name style e).draft
  chosen_style-IsNormal name none e h n = n
  chosen_style-IsNormal name (some style) e h n = h

  step-IsNormal :
      (event : Event) (e : Editor)
      → at.atlas_width ≤ at.three_halves
      → IsNormal e.draft
      → IsNormal (step show at event e).draft
  unfolding step edit choose save presets
  step-IsNormal (edited name input) e h n =
      normalize-IsNormal (λ k. find_key k (with_entry name (input_value input) e.draft))
  step-IsNormal (chosen name) e h n =
      chosen_style-IsNormal name (find_key name (presets at)) e
        (found-IsNormal name (presets at) (presets-IsNormal h)) n
  step-IsNormal (save_clicked true) e h n = n
  step-IsNormal (save_clicked false) e h n = n
  step-IsNormal reset_clicked e h n = (presets-IsNormal h).0
  step-IsNormal (activated active) e h n = n

  runs-IsNormal :
      (events : List Event) (e : Editor)
      → at.atlas_width ≤ at.three_halves
      → IsNormal e.draft
      → IsNormal (run show at events e).draft
  unfolding run
  runs-IsNormal [] e h n = n
  runs-IsNormal (event ∷ rest) e h n =
      runs-IsNormal rest (step show at event e) h (step-IsNormal event e h n)

  lookup-to_fields : (k : Text) (s : Style) → lookup k (to_fields s) ≡ find_key k s
  lookup-to_fields k [] = refl
  lookup-to_fields k ((j, v) ∷ rest) = elim (Bool-cases (text_eq j k)) [
    | inl e ↦ rw e refl
    | inr e ↦ rw e (lookup-to_fields k rest)
  ]

  normalized-cong :
      (read again : Text → Option Value) (s : Style)
      → ((k : Text) → again k ≡ read k)
      → normalized show at again s ≡ normalized show at read s
  normalized-cong read again [] h = refl
  normalized-cong read again ((name, other) ∷ rest) h =
      ap₂ (λ v r. (name, v) ∷ r) (ap (taken show at name other) (h name))
        (normalized-cong read again rest h)

  create-to_fields :
      (style : Style)
      → IsNormal style
      → (create show at (some (object (to_fields style)))).draft ≡ style
  unfolding create IsNormal normalize
  create-to_fields style n =
      normalized-cong (λ k. find_key k style) (λ k. lookup k (to_fields style)) standard
        (λ k. lookup-to_fields k style)
      ∙ n

  create-IsNormal : (stored : Option Value) → IsNormal (create show at stored).draft
  unfolding create
  create-IsNormal stored = normalize-IsNormal (read_stored show at stored)

  -- Whatever is stored at the start, and after any events, the draft is loaded as it is, once it is
  -- stored: no colour, number or switch of it is refused or changed then. The place of 1.15 is taken
  -- to be no higher than that of 1.5.
  pub create-run :
      (stored : Option Value) (events : List Event)
      → at.atlas_width ≤ at.three_halves
      → (create show at
          (some (object (to_fields (run show at events (create show at stored)).draft)))).draft
        ≡ (run show at events (create show at stored)).draft
  create-run stored events h =
      create-to_fields (run show at events (create show at stored)).draft
        (runs-IsNormal events (create show at stored) h (create-IsNormal stored))
