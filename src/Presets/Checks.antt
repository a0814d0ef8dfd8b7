-- ===== src/Presets/Checks.antt =====
-- `checkValue` of cmd/web/osm-presets.js: the hints on the value of a field. `today` is the local
-- date, and `protocol_of` is the platform's `new URL(text).protocol`, or `none` where it throws.
use osmmini.Base.{
  ℕ, zero, suc, ◌+◌, ◌-◌, ◌*◌, ◌/◌, ◌%◌, Bool, false, not, ◌&&◌, ◌||◌, Option, none, some, [], ◌∷◌,
  Text, codes, text_eq, trim, is_space, all, any, is_nil, ltb, leb, ◌==◌, if◌then◌else◌,
}
use osmmini.Presets.Kinds.{
  Field, FieldType, text_type, hours_type, url_type, tel_type, email_type, choice_type, number_type,
}

pub record Day : Type 0 where
  pub year : ℕ
  pub month : ℕ
  pub day : ℕ

abbrev pub is_leap : ℕ → Bool
is_leap y = y % 4 == 0 && (not (y % 100 == 0) || y % 400 == 0)

-- The days of a month, counted from 1.
abbrev pub month_days : ℕ → ℕ → ℕ
month_days y m =
    if m == 2
    then (if is_leap y then 29 else 28)
    else (if m == 4 || (m == 6 || (m == 9 || m == 11)) then 30 else 31)

abbrev next_month : ℕ → ℕ → ℕ × ℕ
next_month y m = if m == 12 then (suc y, 1) else (y, suc m)

-- Days past the end of a month reach into the next one.
unfoldable pub roll_days : ℕ → ℕ → ℕ → ℕ → Day
roll_days zero y m d = record { year = y; month = m; day = d }
roll_days (suc fuel) y m d =
    let after = next_month y m in
    let rest = roll_days fuel after.0 after.1 (d - month_days y m) in
    if leb d (month_days y m) then record { year = y; month = m; day = d } else rest

-- The first day of month `m`, where month 0 is the December before and month 13 the January after.
abbrev pub roll_month : ℕ → ℕ → ℕ × ℕ
roll_month y zero = (y - 1, 12)
roll_month y (suc m) = (y + m / 12, suc (m % 12))

-- Day 0 is the last day of the month before.
abbrev pub before_month : ℕ → ℕ → Day
before_month y m =
    if m == 1
    then record { year = y - 1; month = 12; day = 31 }
    else record { year = y; month = m - 1; day = month_days y (m - 1) }

abbrev pub full_year : ℕ → ℕ
full_year year = if ltb year 100 then 1900 + year else year

abbrev pub day_after : ℕ × ℕ → ℕ → Day
day_after first zero = before_month first.0 first.1
day_after first (suc d) = roll_days 4 first.0 first.1 (suc d)

-- `new Date(Date.UTC(year, month - 1, day))`, read back in UTC, where day is at most 99. A year
-- below 100 is one of the twentieth century.
unfoldable pub utc_day : ℕ → ℕ → ℕ → Day
unfolding roll_days
utc_day year month day = day_after (roll_month (full_year year) month) day

abbrev pub day_lt : Day → Day → Bool
day_lt a b =
    ltb (a.year) (b.year)
    || (a.year == b.year
        && (ltb (a.month) (b.month) || (a.month == b.month && ltb (a.day) (b.day))))

abbrev pub is_digit : ℕ → Bool
is_digit c = leb 0x30 c && leb c 0x39

abbrev pub digit : ℕ → ℕ
digit c = c - 0x30

-- `/^(\d{4})-(\d{2})-(\d{2})$/`, with the numbers of its groups.
unfoldable pub read_date : Text → Option Day
read_date (y1 ∷ y2 ∷ y3 ∷ y4 ∷ s ∷ m1 ∷ m2 ∷ t ∷ d1 ∷ d2 ∷ []) =
    if all is_digit (y1 ∷ y2 ∷ y3 ∷ y4 ∷ m1 ∷ m2 ∷ d1 ∷ d2 ∷ []) && (s == 0x2D && t == 0x2D)
    then some (record {
      year = digit y1 * 1000 + (digit y2 * 100 + (digit y3 * 10 + digit y4));
      month = digit m1 * 10 + digit m2;
      day = digit d1 * 10 + digit d2;
    })
    else none
read_date _ = none

abbrev pub same_day : Day → Day → Bool
same_day a b = a.year == b.year && (a.month == b.month && a.day == b.day)

unfoldable pub exists : Day → Bool
unfolding utc_day
exists day = same_day (utc_day (day.year) (day.month) (day.day)) day

abbrev judge_day : Day → Day → Text
judge_day today day =
    if exists day
    then (if day_lt today day then codes "Das Prüfdatum darf nicht in der Zukunft liegen." else [])
    else codes "Dieses Datum gibt es nicht."

abbrev pub judge_date : Day → Option Day → Text
judge_date today none = codes "Datum als JJJJ-MM-TT eingeben."
judge_date today (some day) = judge_day today day

unfoldable pub check_date : Day → Text → Text
unfolding read_date exists
check_date today text = judge_date today (read_date text)

abbrev is_letter : ℕ → Bool
is_letter c = leb 0x41 c && leb c 0x5A || leb 0x61 c && leb c 0x7A

abbrev one_of : Text → ℕ → Bool
one_of set c = any (λ d. c == d) set

abbrev is_phone_char : ℕ → Bool
is_phone_char c = is_digit c || one_of (codes "+()-/ .;") c

abbrev is_hours_char : ℕ → Bool
is_hours_char c = is_letter c || (is_digit c || one_of (codes ":;,.-+/\"' ()") c)

-- What follows a domain's first character: a dot that is not the last character.
abbrev has_inner_dot : Text → Bool
has_inner_dot [] = false
has_inner_dot (c ∷ s) = c == 0x2E && not (is_nil s) || has_inner_dot s

abbrev is_domain : Text → Bool
is_domain [] = false
is_domain (c ∷ s) = has_inner_dot s

-- `/^[^@\s]+@[^@\s]+\.[^@\s]+$/` from the character after the first one, on a text without `\s`.
abbrev has_at_domain : Text → Bool
has_at_domain [] = false
has_at_domain (c ∷ s) =
    let rest = has_at_domain s in
    if c == 0x40 then all (λ d. not (d == 0x40)) s && is_domain s else rest

unfoldable pub is_email : Text → Bool
is_email [] = false
is_email (c ∷ s) = all (λ d. not (is_space d)) (c ∷ s) && (not (c == 0x40) && has_at_domain s)

-- The rest of the checks: of the field's type.
module _ (protocol_of : Text → Option Text) where
  unfoldable pub check_url : Text → Text
  check_url text = elim (protocol_of text) [
    | none ↦ codes "Vollständige Adresse mit https:// angeben."
    | some p ↦
        if text_eq p (codes "http:") || text_eq p (codes "https:")
        then []
        else codes "Die Adresse sollte mit https:// beginnen."
  ]

  unfoldable pub check_type : FieldType → Text → Text
  unfolding check_url is_email
  check_type url_type text = check_url text
  check_type tel_type text =
      if all is_phone_char text
      then []
      else codes
          "Nur Ziffern, +, Leerzeichen und - verwenden. Mehrere Nummern mit Semikolon trennen."
  check_type email_type text =
      if is_email text then [] else codes "Das sieht nicht wie eine E-Mail-Adresse aus."
  check_type number_type text =
      if not (is_nil text) && all is_digit text
      then []
      else codes "Bitte eine ganze Zahl eintragen."
  check_type hours_type text =
      if any (one_of (codes "–—")) text
      then codes "Normalen Bindestrich (-) statt langem Strich verwenden."
      else (if all is_hours_char text
          then []
          else codes "Ungewöhnliche Zeichen: OSM-Schreibweise wie Mo-Fr 09:00-18:00 verwenden.")
  check_type text_type text = []
  check_type choice_type text = []

  unfoldable pub check_value : Day → Option Field → Text → Text
  unfolding check_date check_type
  check_value today none value = []
  check_value today (some f) value =
      let text = trim value in
      let date = if text_eq (f.key) (codes "check_date") then check_date today text else [] in
      let rest = check_type (f.type) text in
      if is_nil text then [] else (if is_nil date then rest else date)
