-- ===== src/Presets/Tests.antt =====
-- Runs of cmd/web/osm-presets.js, and its theorems at concrete tags and dates.
use osmmini.Base.{
  ◌≡◌, refl, inl, inr, ◌↔◌, true, false, some, none, List, [], ◌∷◌, Text, codes, In, ◌≤◌, ℕ,
}
use osmmini.Presets.Kinds.{Preset}
use osmmini.Presets.Places.{presets, surfaces, services, emergencies}
use osmmini.Presets.Categories.{address, category_names, primary_category_keys}
use osmmini.Presets.Lookup.{
  TagSet, preset_key_for_tags, preset_for_tags, fields_for, field_of, matches, tag_count, ranked,
  ranks, category_label, humanize, primary_category,
}
use osmmini.Presets.Ranked.{preset_key_for_tags-most_specific, fields_for-IsKnown, IsKnown}
use osmmini.Presets.Checks.{
  Day, check_date, read_date, utc_day, roll_days, exists, day_lt, is_email,
}
use osmmini.Presets.Dates.{IsDate, check_date-eq-nil_iff}

-- A fire water pond, which is water too.
abbrev pond : TagSet
pond =
    (codes "name", codes "Dorfweiher")
    ∷ (codes "natural", codes "water")
    ∷ (codes "water", codes "pond")
    ∷ (codes "emergency", codes "fire_water_pond")
    ∷ []

abbrev entrance : TagSet
entrance =
    (codes "building", codes "yes")
    ∷ (codes "entrance", codes "yes")
    ∷ (codes "wheelchair", codes "yes")
    ∷ []

preset_key_for_tags-pond : preset_key_for_tags pond ≡ codes "fire_water_pond"
unfolding preset_key_for_tags ranked ranks matches presets surfaces services emergencies
preset_key_for_tags-pond = refl

preset_key_for_tags-entrance : preset_key_for_tags entrance ≡ codes "barrier_free_entrance"
unfolding preset_key_for_tags ranked ranks matches presets surfaces services emergencies
preset_key_for_tags-entrance = refl

preset_key_for_tags-other : preset_key_for_tags ((codes "shop", codes "kiosk") ∷ []) ≡ []
unfolding preset_key_for_tags ranked ranks matches presets surfaces services emergencies
preset_key_for_tags-other = refl

abbrev same : ℕ → Text
same c = c ∷ []

category_label-kiosk : category_label same (codes " kiosk") ≡ codes "Kiosk"
unfolding category_label humanize category_names presets surfaces services emergencies
category_label-kiosk = refl

category_label-other : category_label same (codes "dog_park") ≡ codes "dog park"
unfolding category_label humanize category_names presets surfaces services emergencies
category_label-other = refl

primary_category-pond : primary_category pond ≡ codes "fire_water_pond"
unfolding primary_category primary_category_keys
primary_category-pond = refl

abbrev today : Day
today = record { year = 2024; month = 5; day = 1 }

check_date-leap : check_date today (codes "2023-02-29") ≡ codes "Dieses Datum gibt es nicht."
unfolding check_date read_date exists utc_day roll_days
check_date-leap = refl

check_date-later :
    check_date today (codes "2024-05-02") ≡ codes "Das Prüfdatum darf nicht in der Zukunft liegen."
unfolding check_date read_date exists utc_day roll_days
check_date-later = refl

is_email-run : is_email (codes "a@b.de") ≡ true
unfolding is_email
is_email-run = refl

is_email-bare : is_email (codes "a@b") ≡ false
unfolding is_email
is_email-bare = refl

-- What the table has first.
abbrev head_of : List (Text × Preset) → Text × Preset
head_of [] = (
  [],
  record {
    label = [];
    icon = [];
    group = [];
    geometry = none;
    tags = [];
    fields = [];
    synonyms = [];
    basic_fields = [];
  },
)
head_of (p ∷ rest) = p

preset_key_for_tags-most_specific_example :
    (q : Text × Preset) × (preset_key_for_tags entrance ≡ q.0)
    × In q presets
    × (matches entrance q ≡ true)
    × (tag_count (head_of presets) ≤ tag_count q)
unfolding presets surfaces services emergencies matches
preset_key_for_tags-most_specific_example =
    preset_key_for_tags-most_specific entrance (head_of presets) (inl refl) refl

fields_for-IsKnown_example : IsKnown (field_of (codes "addr:street"))
unfolding fields_for preset_for_tags preset_key_for_tags ranked ranks matches presets surfaces
    services emergencies address
fields_for-IsKnown_example =
    fields_for-IsKnown entrance (field_of (codes "addr:street")) (inr (inr (inr (inl refl))))

check_date-eq-nil_iff_example : (check_date today (codes "2024-02-29") ≡ []) ↔ (
    (d : Day) × (read_date (codes "2024-02-29") ≡ some d)
    × (100 ≤ d.year)
    × IsDate d
    × (day_lt today d ≡ false))
check_date-eq-nil_iff_example = check_date-eq-nil_iff today (codes "2024-02-29")
