-- ===== src/Presets/Dates.antt =====
-- The dates that `checkValue` of cmd/web/osm-presets.js lets through.
use osmmini.Base.{
  ℕ, zero, suc, ◌+◌, ◌-◌, ◌*◌, ◌/◌, ◌%◌, ◌≤◌, ◌<◌, ◌≡◌, refl, ap, ◌∙◌, sym, subst, inl, inr, ◌↔◌,
  true, false, none, some, [], ◌∷◌, Text, Bool-cases, Option-cases, arith, leb, leb→le, ==_iff,
  ◌==◌, Holds, codes, Holds-eq,
}
use osmmini.Presets.Checks.{
  Day, month_days, roll_days, utc_day, day_lt, read_date, exists, check_date, judge_date,
  roll_month, before_month, same_day, full_year, day_after, day_after,
}

-- A date of the Gregorian calendar.
unfoldable pub IsDate : Day → Type 0
IsDate d = (1 ≤ d.month) × (d.month ≤ 12) × (1 ≤ d.day) × (d.day ≤ month_days (d.year) (d.month))

month_days-bounds : (y m : ℕ) → (28 ≤ month_days y m) × (month_days y m ≤ 31)
month_days-bounds y m = (ground arith, ground arith)

lt_of_leb : (a b : ℕ) → leb a b ≡ false → b < a
lt_of_leb a b h = ground arith

le→leb : (a b : ℕ) → a ≤ b → leb a b ≡ true
le→leb a b h = ground arith

roll_days-IsDate :
    (fuel y m d : ℕ)
    → 1 ≤ m
    → m ≤ 12
    → 1 ≤ d
    → d ≤ 28 * suc fuel
    → IsDate (roll_days fuel y m d) × (y ≤ (roll_days fuel y m d).year)
unfolding IsDate roll_days
roll_days-IsDate zero y m d h1 h2 h3 h4 =
    let b = (month_days-bounds y m).0 in ((h1, h2, h3, omega (arith, b, h4)), omega arith)
roll_days-IsDate (suc fuel) y m d h1 h2 h3 h4 = elim (Bool-cases (leb d (month_days y m))) [
  | inl e ↦ rw e ((h1, h2, h3, leb→le d (month_days y m) e), omega arith)
  | inr e ↦ rw e (
      let long = (month_days-bounds y m).0 in
      let more : month_days y m < d = lt_of_leb d (month_days y m) e in
      elim (Bool-cases (m == 12)) [
        | inl q ↦ rw q (
            let (date, le) =
              roll_days-IsDate fuel (suc y) 1 (d - month_days y m) (omega arith) (omega arith)
                (omega (arith, more)) (omega (arith, long, h4, more)) in
            (date, omega (arith, le)))
        | inr q ↦ rw q (
            let other : (m ≡ 12) → ⊥ =
              λ r. let clash : true ≡ false = sym ((==_iff m 12).1 r) ∙ q in cc in
            roll_days-IsDate fuel y (suc m) (d - month_days y m) (omega arith)
              (omega (arith, h2, other)) (omega (arith, more)) (omega (arith, long, h4, more)))
      ])
]

before_month-IsDate :
    (y m : ℕ) → 1 ≤ m → m ≤ 12 → IsDate (before_month y m) × (y ≤ suc ((before_month y m).year))
unfolding IsDate
before_month-IsDate y m h1 h2 = elim (Bool-cases (m == 1)) [
  | inl q ↦ rw q ((omega arith, omega arith, omega arith, omega arith), omega arith)
  | inr q ↦ rw q (
      let other : (m ≡ 1) → ⊥ = λ r. let clash : true ≡ false = sym ((==_iff m 1).1 r) ∙ q in cc in
      let long = (month_days-bounds y (m - 1)).0 in
      (
        (omega (arith, h1, other), omega (arith, h2), omega (arith, long), omega arith),
        omega arith,
      ))
]

roll_month-bounds :
    (y m : ℕ)
    → (1 ≤ (roll_month y m).1) × ((roll_month y m).1 ≤ 12) × (y ≤ suc ((roll_month y m).0))
roll_month-bounds y zero = (omega arith, omega arith, omega arith)
roll_month-bounds y (suc m) = (omega arith, omega arith, omega arith)

full_year-le : (y : ℕ) → y < 100 → 1900 ≤ full_year y
full_year-le y h = ground arith

-- The date that is read back is one of the calendar, and lies after the year 1897 where the year
-- asked for is below 100.
utc_day-IsDate :
    (y m d : ℕ) → d ≤ 99 → IsDate (utc_day y m d) × (y < 100 → 1898 ≤ (utc_day y m d).year)
unfolding utc_day
utc_day-IsDate y m zero h =
    let (low, high, le) = roll_month-bounds (full_year y) m in
    let first = roll_month (full_year y) m in
    let (date, back) = before_month-IsDate first.0 first.1 low high in
    (date, λ lt. let above = full_year-le y lt in omega (arith, back, le, above))
utc_day-IsDate y m (suc d) h =
    let (low, high, le) = roll_month-bounds (full_year y) m in
    let first = roll_month (full_year y) m in
    let (date, later) =
      roll_days-IsDate 4 first.0 first.1 (suc d) low high (omega arith) (omega (arith, h)) in
    (date, λ lt. let above = full_year-le y lt in omega (arith, later, le, above))

roll_days-within :
    (y m d : ℕ)
    → leb d (month_days y m) ≡ true
    → roll_days 4 y m d ≡ record { year = y; month = m; day = d }
unfolding roll_days
roll_days-within y m d h = rw h refl

day_after-within :
    (y m d : ℕ)
    → 1 ≤ d
    → leb d (month_days y m) ≡ true
    → day_after (y, m) d ≡ record { year = y; month = m; day = d }
day_after-within y m zero low h = absurd (omega (arith, low))
day_after-within y m (suc d) low h = roll_days-within y m (suc d) h

roll_month_self : (y m : ℕ) → 100 ≤ y → 1 ≤ m → m ≤ 12 → roll_month (full_year y) m ≡ (y, m)
roll_month_self y zero h low high = absurd (omega (arith, low))
roll_month_self y (suc m) h low high =
    let year : full_year y + m / 12 ≡ y = ground arith in
    let month : suc (m % 12) ≡ suc m = omega (arith, high) in rw (year, month) refl

utc_day_self : (d : Day) → 100 ≤ d.year → IsDate d → utc_day d.year d.month d.day ≡ d
unfolding utc_day IsDate
utc_day_self d h (m1, m2, d1, d2) =
    ap (λ f. day_after f d.day) (roll_month_self d.year d.month h m1 m2)
    ∙ day_after-within d.year d.month d.day d1 (le→leb d.day (month_days d.year d.month) d2)

same_day→≡ : (a b : Day) → same_day a b ≡ true → a ≡ b
same_day→≡ a b h =
    let y : a.year ≡ b.year = ground arith in
    let m : a.month ≡ b.month = ground arith in let d : a.day ≡ b.day = ground arith in cc

same_day_refl : (a : Day) → same_day a a ≡ true
same_day_refl a = ground arith

-- A date is taken for an existing one exactly when it is one of the calendar from the year 100 on.
exists_iff : (d : Day) → d.day ≤ 99 → (exists d ≡ true) ↔ ((100 ≤ d.year) × IsDate d)
unfolding exists
exists_iff d h = (
  λ e.
      let same = same_day→≡ (utc_day d.year d.month d.day) d e in
      let (date, late) = utc_day-IsDate d.year d.month d.day h in
      let year = ap (λ x. x.year) same in
      let recent : 100 ≤ d.year = ground (arith, late, year) in (recent, subst IsDate same date),
  λ (recent, date). ap (λ x. same_day x d) (utc_day_self d recent date) ∙ same_day_refl d,
)

read_date-bounds :
    (text : Text) → Holds (λ d. (d.year ≤ 9999) × (d.month ≤ 99) × (d.day ≤ 99)) (read_date text)
unfolding read_date
read_date-bounds (y1 ∷ y2 ∷ y3 ∷ y4 ∷ s ∷ m1 ∷ m2 ∷ t ∷ d1 ∷ d2 ∷ []) = ground arith
read_date-bounds _ = tt

judge_day-eq-nil :
    (today d : Day) → judge_date today (some d) ≡ [] → (exists d ≡ true) × (day_lt today d ≡ false)
judge_day-eq-nil today d h = elim (Bool-cases (exists d)) [
  | inl e ↦ elim (Bool-cases (day_lt today d)) [
    | inl f ↦
        let clash : codes "Das Prüfdatum darf nicht in der Zukunft liegen." ≡ [] = rw (e, f) at h in
        cc
    | inr f ↦ (e, f)
  ]
  | inr e ↦ let clash : codes "Dieses Datum gibt es nicht." ≡ [] = rw e at h in cc
]

-- The check of a date says nothing exactly where the text is four digits, two digits and two digits
-- between hyphens that name a date of the Gregorian calendar, of the year 100 or later, and that
-- date does not lie after today.
pub check_date-eq-nil_iff :
    (today : Day) (text : Text)
    → (check_date today text ≡ []) ↔ (
        (d : Day) × (read_date text ≡ some d)
        × (100 ≤ d.year)
        × IsDate d
        × (day_lt today d ≡ false))
unfolding check_date
check_date-eq-nil_iff today text = (
  λ h. elim (Option-cases (read_date text)) [
    | inl e ↦ let clash : judge_date today none ≡ [] = ap (judge_date today) (sym e) ∙ h in cc
    | inr (d, e) ↦
        let said : judge_date today (some d) ≡ [] = ap (judge_date today) (sym e) ∙ h in
        let (real, past) = judge_day-eq-nil today d said in
        let (year, month, short) = Holds-eq _ (read_date text) (read_date-bounds text) e in
        let (recent, date) = (exists_iff d short).0 real in (d, e, recent, date, past)
  ],
  λ (d, e, recent, date, past).
      let (year, month, short) = Holds-eq _ (read_date text) (read_date-bounds text) e in
      let real = (exists_iff d short).1 (recent, date) in rw (e, real, past) refl,
)
