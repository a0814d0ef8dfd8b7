-- ===== src/OsmEditor/Tags.antt =====
-- `tags` of cmd/web/osm-editor.js: the entries of an object, checked and put into a dictionary.
pub mod Valid
use osmmini.Base.{
  ℕ, Bool, true, false, ◌&&◌, ◌||◌, not, List, [], ◌∷◌, ◌++◌, Text, text_eq, length, all, ltb, leb,
  ◌==◌, if◌then◌else◌, ok, err, ◌>>=◌,
}
use osmmini.Json.{Value, string}
use osmmini.OsmEditor.Problem.{Checked, too_many_tags, tag_not_text, invalid_tag, duplicate_tag}

-- A dictionary without a prototype, in the order in which its keys were added.
abbrev pub Tags : Type 0
Tags = List (Text × Text)

abbrev xml_char : ℕ → Bool
xml_char n =
    n == 9
    || (n == 10
        || (n == 13
            || (leb 32 n && leb n 0xD7FF
                || (leb 0xE000 n && leb n 0xFFFD || leb 0x10000 n && leb n 0x10FFFF))))

-- `xmlText`
unfoldable pub xml_text : Text → Bool
xml_text s = all xml_char s

abbrev pub is_empty : Text → Bool
is_empty [] = true
is_empty (_ ∷ _) = false

-- The test on one entry, passed.
unfoldable pub tag_allowed : Text → Text → Bool
tag_allowed k v =
    not (is_empty k) && (leb (length k) 255 && (leb (length v) 255 && (xml_text k && xml_text v)))

-- `Object.hasOwn`
abbrev pub has : Text → Tags → Bool
has k [] = false
has k ((j, v) ∷ rest) = text_eq j k || has k rest

-- One round of the loop, on an entry whose value is text.
add_text : Tags → Text → Text → Checked Tags
add_text out k v =
    if is_empty k && is_empty v
    then ok out
    else if not (tag_allowed k v)
    then err invalid_tag
    else if has k out
    then err (duplicate_tag k)
    else ok (out ++ (k, v) ∷ [])

add_tag : Tags → Text → Value → Checked Tags
unfolding add_text
add_tag out k (string v) = add_text out k v
add_tag out k _ = err tag_not_text

add_tags : Tags → List (Text × Value) → Checked Tags
add_tags out [] = ok out
add_tags out ((k, v) ∷ rest) = add_tag out k v >>= λ next. add_tags next rest

unfoldable pub tags : List (Text × Value) → Checked Tags
unfolding add_tag add_tags
tags es = if ltb 200 (length es) then err too_many_tags else add_tags [] es
