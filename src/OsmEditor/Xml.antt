-- ===== src/OsmEditor/Xml.antt =====
-- `esc` and the text that `osc` returns, of cmd/web/osm-editor.js. How a number is written as text
-- is the platform's, so it is a parameter.
pub mod Escape
pub mod Lines
mod Tests
use osmmini.Base.{
  ℕ, Bool, true, false, Option, none, some, List, [], ◌∷◌, ◌++◌, map, Text, codes, flat_map, ◌==◌,
  if◌then◌else◌, is_nil, ok, ◌>>=◌,
}
use osmmini.Base.Int.{ℤ}
use osmmini.Json.{Value}
use osmmini.Json.Numbers.{Number, whole}
use osmmini.OsmEditor.Problem.{Checked}
use osmmini.OsmEditor.Tags.{Tags}
use osmmini.OsmEditor.Element.{word, Member, Shape, at, along, joining, Element, type}
use osmmini.OsmEditor.Changes.{get, keys, sort_keys}
use osmmini.OsmEditor.Export.{Change, osc}

-- The replacement of one character.
abbrev pub esc_char : ℕ → Text
esc_char c =
    if c == 38
    then codes "&amp;"
    else if c == 60
    then codes "&lt;"
    else if c == 62
    then codes "&gt;"
    else if c == 34
    then codes "&quot;"
    else if c == 39
    then codes "&apos;"
    else if c == 10
    then codes "&#10;"
    else if c == 13
    then codes "&#13;"
    else if c == 9
    then codes "&#9;"
    else c ∷ []

unfoldable pub esc : Text → Text
esc s = flat_map esc_char s

-- `Array.prototype.join`
abbrev pub join : Text → List Text → Text
join by [] = []
join by (l ∷ []) = l
join by (l ∷ m ∷ ls) = l ++ by ++ join by (m ∷ ls)

abbrev pub quoted : Text → Text
quoted s = codes "\"" ++ s ++ codes "\""

-- `e.tags[k]`, converted to text.
abbrev pub value_text : Option Text → Text
value_text none = codes "undefined"
value_text (some v) = v

unfoldable pub tag_line : Text → Text → Text
tag_line k v =
    codes "      <tag k=" ++ quoted (esc k) ++ codes " v=" ++ quoted (esc v) ++ codes "/>"

unfoldable pub tag_lines : Tags → List Text
tag_lines t = map (λ k. tag_line k (value_text (get k t))) (sort_keys (keys t))

module _ (shown : Number → Text) where
  id_text : ℤ → Text
  id_text i = quoted (shown (whole i))

  version_attr : Bool → Option ℤ → Text
  version_attr false v = []
  version_attr true none = codes " version=\"undefined\""
  version_attr true (some n) = codes " version=" ++ quoted (shown (whole n))

  position_attrs : Shape → Text
  position_attrs (at lon lat) =
      codes " lat=" ++ quoted (shown lat) ++ codes " lon=" ++ quoted (shown lon)
  position_attrs _ = []

  pub member_line : Member → Text
  member_line m =
      codes "      <member type="
      ++ quoted (word m.type)
      ++ codes " ref="
      ++ quoted (shown (whole m.ref))
      ++ codes " role="
      ++ quoted (esc m.role)
      ++ codes "/>"

  shape_lines : Shape → List Text
  unfolding member_line
  shape_lines (at lon lat) = []
  shape_lines (along nodes) =
      map (λ i. codes "      <nd ref=" ++ quoted (shown (whole i)) ++ codes "/>") nodes
  shape_lines (joining members) = map member_line members

  -- An entry of the sections `create` and `modify`.
  element_text : Bool → Element → Text
  unfolding id_text version_attr position_attrs shape_lines
  element_text with_version e =
      codes "    <"
      ++ word (type e)
      ++ codes " id="
      ++ id_text e.id
      ++ version_attr with_version e.version
      ++ position_attrs e.shape
      ++ codes ">\n"
      ++ join (codes "\n") (shape_lines e.shape ++ tag_lines e.tags)
      ++ codes "\n    </"
      ++ word (type e)
      ++ codes ">"

  deletion_text : Element → Text
  unfolding id_text version_attr
  deletion_text e =
      codes "    <"
      ++ word (type e)
      ++ codes " id="
      ++ id_text e.id
      ++ version_attr true e.version
      ++ codes "/>"

  -- A section, left out when it is empty.
  section : Text → List Text → List Text
  section name [] = []
  section name (x ∷ xs) =
      (codes "  <"
        ++ name
        ++ codes ">\n"
        ++ join (codes "\n") (x ∷ xs)
        ++ codes "\n  </"
        ++ name
        ++ codes ">")
      ∷ []

  unfoldable pub document : Change → Text
  unfolding element_text deletion_text section
  document g =
      codes
        "<?xml version=\"1.0\" encoding=\"UTF-8\"?>\n<osmChange version=\"0.6\" generator=\"OSMmini\">\n"
      ++ join (codes "\n") (
          section (codes "create") (map (element_text false) g.create)
          ++ section (codes "modify") (map (element_text true) g.modify)
          ++ section (codes "delete") (map deletion_text g.delete))
      ++ codes "\n</osmChange>\n"

  -- What `osc` returns.
  unfoldable pub osc_text : List Value → Checked Text
  osc_text raws = osc raws >>= λ g. ok (document g)
