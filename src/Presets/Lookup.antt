-- ===== src/Presets/Lookup.antt =====
-- The functions of cmd/web/osm-presets.js that find presets, fields and plain words. `upper` is the
-- platform's `toUpperCase` on a character, `lower` its `toLowerCase` on a text. An absent value is
-- the empty text.
use osmmini.Base.{
  Bool, not, ◌||◌, ◌&&◌, Option, none, some, List, [], ◌∷◌, map, ◌++◌, Text, codes, text_eq,
  optional_eq, find_key, trim, all, any, find, is_nil, length, stable_sort, ltb, ◌==◌,
  if◌then◌else◌, ℕ,
}
use osmmini.Presets.Kinds.{Field, Preset}
use osmmini.Presets.Fields.{fields}
use osmmini.Presets.Places.{presets}
use osmmini.Presets.Categories.{
  key_labels, category_names, category_icons, address, generic_fields, primary_category_keys,
}

abbrev pub TagSet : Type 0
TagSet = List (Text × Text)

abbrev pub field_of : Text → Option Field
field_of key = find_key key fields

abbrev or_text : Option Text → Text → Text
or_text none rest = rest
or_text (some []) rest = rest
or_text (some s) rest = s

unfoldable pub key_label : Text → Text
key_label key = elim (field_of key) [
  | some f ↦ if is_nil (f.label) then or_text (find_key key key_labels) key else f.label
  | none ↦ or_text (find_key key key_labels) key
]

abbrev pub tag_count : Text × Preset → ℕ
tag_count p = length p.1.tags

abbrev is_building : Text × Preset → Bool
is_building p = any (λ t. text_eq t.0 (codes "building")) p.1.tags

-- `a` may stand before `b`: the comparison of the two does not exceed 0.
unfoldable pub ranks : Text × Preset → Text × Preset → Bool
ranks a b =
    ltb (tag_count b) (tag_count a)
    || (tag_count a == tag_count b && (not (is_building a) || is_building b))

unfoldable pub ranked : List (Text × Preset)
unfolding ranks
ranked = stable_sort ranks presets

unfoldable pub matches : TagSet → Text × Preset → Bool
matches tags p = all (λ t. optional_eq (find_key t.0 tags) (some t.1)) p.1.tags

abbrev pub key_of : Option (Text × Preset) → Text
key_of none = []
key_of (some p) = p.0

unfoldable pub preset_key_for_tags : TagSet → Text
unfolding ranked matches
preset_key_for_tags tags = key_of (find (matches tags) ranked)

unfoldable pub preset_for_tags : TagSet → Option Preset
unfolding preset_key_for_tags
preset_for_tags tags = find_key (preset_key_for_tags tags) presets

-- An entry is `none` where the table has no field of the key.
pub record Form : Type 0 where
  pub preset : Option Preset
  pub fields : List (Option Field)
  pub address : List (Option Field)

abbrev pub field_keys : Option Preset → List Text
field_keys none = generic_fields
field_keys (some p) = p.fields

unfoldable pub fields_for : TagSet → Form
unfolding preset_for_tags
fields_for tags = record {
  preset = preset_for_tags tags;
  fields = map field_of (field_keys (preset_for_tags tags));
  address = map field_of address;
}

abbrev spaced : Text → Text
spaced s = map (λ c. if c == 0x5F then 0x20 else c) s

module _ (upper : ℕ → Text) where
  -- A character beyond the 16-bit range starts with a surrogate, which stays as it is.
  abbrev capital : Text → Text
  capital [] = []
  capital (c ∷ s) = if ltb c 65536 then upper c ++ s else c ∷ s

  unfoldable pub humanize : Text → Text
  humanize value = capital (trim (spaced value))

  -- The preset of one tag that has the value.
  abbrev pub sole_value : Text → Text × Preset → Bool
  sole_value key p = any (λ t. text_eq t.1 key) p.1.tags && tag_count p == 1

  abbrev preset_label : Option (Text × Preset) → Option Text
  preset_label none = none
  preset_label (some p) = some p.1.label

  abbrev preset_icon : Option (Text × Preset) → Option Text
  preset_icon none = none
  preset_icon (some p) = some p.1.icon

  unfoldable pub category_label : Text → Text
  unfolding humanize
  category_label value =
      let key = trim value in
      if is_nil key
      then []
      else or_text (preset_label (find (sole_value key) presets))
          (or_text (find_key key category_names) (humanize key))

  unfoldable pub category_icon : Text → Text
  category_icon value =
      let key = trim value in
      or_text (preset_icon (find (sole_value key) presets))
        (or_text (find_key key category_icons) (codes "📍"))

unfoldable pub is_raw_label : (Text → Text) → Text → Text → Bool
is_raw_label lower label category =
    is_nil label || text_eq (lower (trim label)) (lower (trim (spaced category)))

abbrev first_value : TagSet → List Text → Text
first_value tags [] = []
first_value tags (key ∷ rest) = or_text (find_key key tags) (first_value tags rest)

unfoldable pub primary_category : TagSet → Text
primary_category tags = first_value tags primary_category_keys
