-- ===== src/OfflineStyle.antt =====
-- cmd/web/offline-style.js: the style of the offline map, as the list of its entries, which is read,
-- edited, stored and applied to the layers of the map. A JSON text that is stored stands for its
-- value. Of a number between two integers the second part grows with it (Json.Numbers).
pub mod Editor
pub mod Kept
mod Tests
use osmmini.Base.{
  ℕ, zero, suc, Bool, true, false, not, ◌&&◌, ◌||◌, ◌==◌, leb, ltb, Option, none, some, List, [],
  ◌∷◌, ◌++◌, map, Text, codes, text_eq, find_key, all, length, if◌then◌else◌,
}
use osmmini.Base.Int.{ℤ, pos, ltb_ℤ, leb_ℤ, eqb_ℤ}
use osmmini.Json.{
  Value, null, boolean, number, string, array, object, Items, nil, cons, Fields, field, truthy,
  entries,
}
use osmmini.Json.Numbers.{Number, whole, between, finite}

abbrev pub Style : Type 0
Style = List (Text × Value)

-- The doubles 0.6, 0.8, 1.15, 1.35 and 1.5, as their places between two integers.
pub record Places : Type 0 where
  pub six_tenths : ℕ
  pub eight_tenths : ℕ
  pub atlas_width : ℕ
  pub contrast_width : ℕ
  pub three_halves : ℕ

abbrev pub colour : Text → Text → Text × Value
colour name text = (name, string text)

abbrev one : Value
one = number (whole (pos 1))

unfoldable pub standard : Style
standard =
    colour (codes "background") (codes "#f4f2eb")
    ∷ colour (codes "water") (codes "#aad3df")
    ∷ colour (codes "forest") (codes "#c6d9ba")
    ∷ colour (codes "farmland") (codes "#eee7ce")
    ∷ colour (codes "meadow") (codes "#dce5c7")
    ∷ colour (codes "buildings") (codes "#d8cec3")
    ∷ colour (codes "motorway") (codes "#f1c582")
    ∷ colour (codes "primary") (codes "#f8e4ac")
    ∷ colour (codes "residential") (codes "#ffffff")
    ∷ colour (codes "text") (codes "#243346")
    ∷ colour (codes "halo") (codes "#ffffff")
    ∷ (codes "roadWidth", one)
    ∷ (codes "labelSize", one)
    ∷ (codes "showBuildings", boolean true)
    ∷ (codes "showPaths", boolean true)
    ∷ (codes "showLabels", boolean true)
    ∷ []

-- `o[k] = v` on the entries of an object.
abbrev pub with_entry {ℓ} : {A : Type ℓ} → Text → A → List (Text × A) → List (Text × A)
with_entry k v [] = (k, v) ∷ []
with_entry k v ((j, w) ∷ rest) =
    let others = with_entry k v rest in if text_eq j k then (k, v) ∷ rest else (j, w) ∷ others

-- `{ ...base, ...changes }`
abbrev pub with_entries : Style → Style → Style
with_entries [] base = base
with_entries ((k, v) ∷ rest) base = with_entries rest (with_entry k v base)

-- The table of presets.
module _ (at : Places) where
  abbrev atlas : Style
  atlas =
      colour (codes "background") (codes "#fffff5")
      ∷ colour (codes "water") (codes "#a9cdee")
      ∷ colour (codes "forest") (codes "#d4eaa5")
      ∷ colour (codes "farmland") (codes "#f5f2dd")
      ∷ colour (codes "meadow") (codes "#e4efc8")
      ∷ colour (codes "motorway") (codes "#ffab68")
      ∷ colour (codes "primary") (codes "#ffdc70")
      ∷ colour (codes "buildings") (codes "#ded7df")
      ∷ colour (codes "text") (codes "#323b40")
      ∷ (codes "roadWidth", number (between (pos 1) at.atlas_width))
      ∷ []

  abbrev night : Style
  night =
      colour (codes "background") (codes "#17212c")
      ∷ colour (codes "water") (codes "#264d64")
      ∷ colour (codes "forest") (codes "#2a4439")
      ∷ colour (codes "farmland") (codes "#353b30")
      ∷ colour (codes "meadow") (codes "#304337")
      ∷ colour (codes "buildings") (codes "#48515d")
      ∷ colour (codes "motorway") (codes "#d7a65e")
      ∷ colour (codes "primary") (codes "#bcb288")
      ∷ colour (codes "residential") (codes "#788492")
      ∷ colour (codes "text") (codes "#e6edf5")
      ∷ colour (codes "halo") (codes "#17212c")
      ∷ []

  abbrev contrast : Style
  contrast =
      colour (codes "background") (codes "#ffffff")
      ∷ colour (codes "water") (codes "#83c7e5")
      ∷ colour (codes "forest") (codes "#abd09c")
      ∷ colour (codes "farmland") (codes "#f1e8bb")
      ∷ colour (codes "motorway") (codes "#e99a36")
      ∷ colour (codes "primary") (codes "#edc657")
      ∷ colour (codes "residential") (codes "#e2ded7")
      ∷ colour (codes "text") (codes "#17212b")
      ∷ (codes "roadWidth", number (between (pos 1) at.contrast_width))
      ∷ (codes "labelSize", number (between (pos 1) at.atlas_width))
      ∷ []

  unfoldable pub presets : List (Text × Style)
  unfolding standard
  presets =
      (codes "standard", standard)
      ∷ (codes "atlas", with_entries atlas standard)
      ∷ (codes "night", with_entries night standard)
      ∷ (codes "contrast", with_entries contrast standard)
      ∷ []

-- `/^#[0-9a-f]{6}$/i`
abbrev is_hex : ℕ → Bool
is_hex c = leb 48 c && leb c 57 || (leb 65 c && leb c 70 || leb 97 c && leb c 102)

abbrev pub is_colour : Text → Bool
is_colour [] = false
is_colour (c ∷ s) = c == 35 && (length s == 6 && all is_hex s)

-- `<` on finite numbers.
abbrev pub below : Number → Number → Bool
below (whole i) (whole j) = ltb_ℤ i j
below (whole i) (between j g) = leb_ℤ i j
below (between i f) (whole j) = ltb_ℤ i j
below (between i f) (between j g) = ltb_ℤ i j || (eqb_ℤ i j && ltb f g)
below x y = false

-- `Math.max(low, Math.min(high, x))` for finite numbers.
abbrev pub clamp : Number → Number → Number → Number
clamp low high x = if below x low then low else if below high x then high else x

abbrev pub clamp_value : Number → Number → Value → Value → Value
clamp_value low high other (number x) = if finite x then number (clamp low high x) else other
clamp_value low high other v = other

-- `normalize`; `show` is `String` on a value that is no text.
module _ (show : Value → Text) (at : Places) where
  abbrev pub text_of : Value → Text
  text_of (string s) = s
  text_of v = if truthy v then show v else []

  -- What becomes of the entry of a name, where the standard has `other`.
  abbrev pub taken_with : Text → Value → Value → Value
  taken_with name (string s) v = if is_colour (text_of v) then v else string s
  taken_with name (boolean b) (boolean c) = boolean c
  taken_with name (number n) v =
      if text_eq name (codes "roadWidth")
      then clamp_value (between (pos 0) at.six_tenths) (whole (pos 2)) (number n) v
      else clamp_value (between (pos 0) at.eight_tenths) (between (pos 1) at.three_halves)
          (number n) v
  taken_with name other v = other

  abbrev pub taken : Text → Value → Option Value → Value
  taken name other none = other
  taken name other (some v) = taken_with name other v

  abbrev pub normalized : (Text → Option Value) → Style → Style
  normalized read [] = []
  normalized read ((name, other) ∷ rest) =
      (name, taken name other (read name)) ∷ normalized read rest

  unfoldable pub normalize : (Text → Option Value) → Style
  unfolding standard
  normalize read = normalized read standard

-- `scaleWidth`, which goes into the results of an expression.
module _ (times : Number → Number → Number) (factor : Number) where
  unfoldable mutual
    pub scale_width : Value → Value
    scale_width (number n) = number (times n factor)
    scale_width (array (cons (string s) rest)) = array (
        cons (string s) (
          if text_eq s (codes "interpolate")
          then scale_steps 3 rest
          else if text_eq s (codes "match")
          then scale_cases 2 rest
          else rest))
    scale_width v = v

    -- Each second value, after the first ones; of a `match` the last one too.
    scale_steps : ℕ → Items → Items
    scale_steps skip nil = nil
    scale_steps zero (cons v rest) = cons (scale_width v) (scale_steps 1 rest)
    scale_steps (suc skip) (cons v rest) = cons v (scale_steps skip rest)

    scale_cases : ℕ → Items → Items
    scale_cases skip nil = nil
    scale_cases skip (cons v nil) = cons (scale_width v) nil
    scale_cases zero (cons v (cons w rest)) = cons (scale_width v) (scale_cases 1 (cons w rest))
    scale_cases (suc skip) (cons v (cons w rest)) = cons v (scale_cases skip (cons w rest))
