-- ===== src/Workbench/Csv/RoundTrip.antt =====
-- Reading the rows that cmd/web/geo-workbench.js writes.
use osmmini.Base.{
  ℕ, ◌≤◌, ◌≡◌, refl, ap, sym, subst, ◌∙◌, inl, inr, true, false, List, [], ◌∷◌, ◌++◌, map, Text,
  is_nil, All, keep, length, length-append, append_assoc, append-nil, arith, ltb, ◌==◌,
  if◌then◌else◌, Bool-cases, ==_iff, ok, err, ◌>>=◌,
}
use osmmini.Workbench.Problem.{Checked, csv_too_long}
use osmmini.Workbench.Csv.Rows.{
  Scan, scan, start_scan, finish_row, push_row, full_row, max_rows, follows, in_quotes,
  outside_quotes, double_quotes, quote, joined, write_row, write_rows,
}
use osmmini.Workbench.Csv.{read_rows, last_row}

-- The scanner in a quoted cell, behind its closing quote, and at the start of a cell.
abbrev inside : List (List Text) → List Text → Text → Scan
inside rows row cell = record {
  rows = rows;
  row = row;
  cell = cell;
  quoted = true;
  closed = false;
  start = false;
}

abbrev behind : List (List Text) → List Text → Text → Scan
behind rows row cell = record {
  rows = rows;
  row = row;
  cell = cell;
  quoted = false;
  closed = true;
  start = false;
}

abbrev before : List (List Text) → List Text → Scan
before rows row = record {
  rows = rows;
  row = row;
  cell = [];
  quoted = false;
  closed = false;
  start = true;
}

append_one : {A : Type 0} (d c : A) (s t : List A) → d ≡ c → (s ++ d ∷ []) ++ t ≡ s ++ c ∷ t
append_one d c s t e = append_assoc s (d ∷ []) t ∙ ap (λ x. s ++ x ∷ t) e

scan_plain :
    (rows : List (List Text)) (row : List Text) (c : ℕ) (t cell : Text)
    → (c == 0x22) ≡ false
    → scan false (c ∷ t) (inside rows row cell) ≡ scan false t (inside rows row (cell ++ c ∷ []))
unfolding scan in_quotes
scan_plain rows row c t cell h = rw h refl

scan-double_quotes :
    (rows : List (List Text)) (row : List Text) (s cell rest : Text)
    → follows 0x22 rest ≡ false
    → scan false (double_quotes s ++ 0x22 ∷ rest) (inside rows row cell)
      ≡ scan false rest (behind rows row (cell ++ s))
unfolding scan in_quotes
scan-double_quotes rows row [] cell rest h = rw (h, append-nil cell) refl
scan-double_quotes rows row (c ∷ s) cell rest h = elim (Bool-cases (c == 0x22)) [
  | inl e ↦ rw e (
      scan-double_quotes rows row s (cell ++ 0x22 ∷ []) rest h
      ∙ ap (λ t. scan false rest (behind rows row t))
          (append_one 0x22 c cell s (sym ((==_iff c 0x22).0 e))))
  | inr e ↦ rw e (
      scan_plain rows row c (double_quotes s ++ 0x22 ∷ rest) cell e
      ∙ scan-double_quotes rows row s (cell ++ c ∷ []) rest h
      ∙ ap (λ t. scan false rest (behind rows row t)) (append_one c c cell s refl))
]

-- The first quote of a cell opens it.
scan-quote :
    (rows : List (List Text)) (row : List Text) (s rest : Text)
    → follows 0x22 rest ≡ false
    → scan false (quote s ++ rest) (before rows row) ≡ scan false rest (behind rows row s)
unfolding scan outside_quotes
scan-quote rows row s rest h =
    ap (λ t. scan false t (inside rows row [])) (append_assoc (double_quotes s) (0x22 ∷ []) rest)
    ∙ scan-double_quotes rows row s [] rest h

abbrev ended : List (List Text) → List Text → Text → Checked Scan
ended rows row rest =
    let after = scan false rest (before (push_row row rows) []) in
    if ltb max_rows (length (push_row row rows)) then err csv_too_long else after

scan-line_end :
    (rows : List (List Text)) (row : List Text) (cell rest : Text)
    → scan false (0x0D ∷ 0x0A ∷ rest) (behind rows row cell) ≡ ended rows (row ++ cell ∷ []) rest
unfolding scan outside_quotes finish_row
scan-line_end rows row cell rest =
    elim (Bool-cases (ltb max_rows (length (push_row (row ++ cell ∷ []) rows)))) [
      | inl e ↦ rw e refl
      | inr e ↦ rw e refl
    ]

-- One row and the end of its line.
scan-write_row :
    (rows : List (List Text)) (row : List Text) (x : Text) (xs : List Text) (rest : Text)
    → scan false (write_row (x ∷ xs) ++ 0x0D ∷ 0x0A ∷ rest) (before rows row)
      ≡ ended rows (row ++ x ∷ xs) rest
unfolding scan outside_quotes
scan-write_row rows row x [] rest =
    scan-quote rows row x (0x0D ∷ 0x0A ∷ rest) refl ∙ scan-line_end rows row x rest
scan-write_row rows row x (y ∷ ys) rest =
    ap (λ t. scan false t (before rows row))
      (append_assoc (quote x) (0x2C ∷ write_row (y ∷ ys)) (0x0D ∷ 0x0A ∷ rest))
    ∙ scan-quote rows row x (0x2C ∷ (write_row (y ∷ ys) ++ 0x0D ∷ 0x0A ∷ rest)) refl
    ∙ scan-write_row rows (row ++ x ∷ []) y ys rest
    ∙ ap (λ r. ended rows r rest) (append_assoc row (x ∷ []) (y ∷ ys))

unfoldable pub lines : List (List Text) → Text
lines [] = []
lines (row ∷ rows) = write_row row ++ 0x0D ∷ 0x0A ∷ lines rows

pub write_rows-lines :
    (row : List Text) (rows : List (List Text)) → write_rows (row ∷ rows) ≡ lines (row ∷ rows)
unfolding write_rows lines
write_rows-lines row [] = refl
write_rows-lines row (next ∷ rows) =
    append_assoc (write_row row)
      (0x0D ∷ 0x0A ∷ joined (0x0D ∷ 0x0A ∷ []) (map write_row (next ∷ rows))) (0x0D ∷ 0x0A ∷ [])
    ∙ ap (λ t. write_row row ++ 0x0D ∷ 0x0A ∷ t) (write_rows-lines next rows)

-- A row of at least one cell.
unfoldable pub IsRow : List Text → Type 0
IsRow row = is_nil row ≡ false

ended-eq :
    (rows : List (List Text)) (row : List Text) (rest : Text)
    → length (push_row row rows) ≤ max_rows
    → ended rows row rest ≡ scan false rest (before (push_row row rows) [])
ended-eq rows row rest h =
    let short : ltb max_rows (length (push_row row rows)) ≡ false = ground arith in rw short refl

length-keep_one :
    (rows more : List (List Text)) (row : List Text)
    → length (rows ++ row ∷ []) ≤ length (rows ++ row ∷ more)
length-keep_one rows more row =
    omega (arith, length-append rows (row ∷ []), length-append rows (row ∷ more))

length-prefix : (rows more : List (List Text)) → length rows ≤ length (rows ++ more)
length-prefix rows more = omega (arith, length-append rows more)

next_row :
    (rows pushed : List (List Text)) (x : Text) (xs : List Text) (rest : Text)
    → push_row (x ∷ xs) rows ≡ pushed
    → length pushed ≤ max_rows
    → scan false (write_row (x ∷ xs) ++ 0x0D ∷ 0x0A ∷ rest) (before rows [])
      ≡ scan false rest (before pushed [])
next_row rows pushed x xs rest e h =
    scan-write_row rows [] x xs rest
    ∙ ended-eq rows (x ∷ xs) rest (omega (arith, h, ap length e))
    ∙ ap (λ r. scan false rest (before r [])) e

scan-lines :
    (rs rows : List (List Text))
    → All IsRow rs
    → length (rows ++ keep full_row rs) ≤ max_rows
    → scan false (lines rs) (before rows []) ≡ ok (before (rows ++ keep full_row rs) [])
unfolding lines IsRow scan
scan-lines [] rows a h = ap (λ r. ok (before r [])) (sym (append-nil rows))
scan-lines ([] ∷ rest) rows a h = let clash : true ≡ false = a.0 in cc
scan-lines ((x ∷ xs) ∷ rest) rows a h = elim (Bool-cases (full_row (x ∷ xs))) [
  | inl e ↦
      let row = x ∷ xs in
      let more = keep full_row rest in
      let kept : keep full_row (row ∷ rest) ≡ row ∷ more = rw e refl in
      let bound : length (rows ++ row ∷ more) ≤ max_rows =
        subst (λ k. length (rows ++ k) ≤ max_rows) kept h in
      let joined_up = append_one row row rows more refl in
      let pushed : push_row row rows ≡ rows ++ row ∷ [] = rw e refl in
      next_row rows (rows ++ row ∷ []) x xs (lines rest) pushed
        (omega (arith, bound, length-keep_one rows more row))
      ∙ scan-lines rest (rows ++ row ∷ []) a.1 (omega (arith, bound, ap length joined_up))
      ∙ ap (λ r. ok (before r [])) (joined_up ∙ ap (λ k. rows ++ k) (sym kept))
  | inr e ↦
      let row = x ∷ xs in
      let more = keep full_row rest in
      let kept : keep full_row (row ∷ rest) ≡ more = rw e refl in
      let bound : length (rows ++ more) ≤ max_rows =
        subst (λ k. length (rows ++ k) ≤ max_rows) kept h in
      let pushed : push_row row rows ≡ rows = rw e refl in
      next_row rows rows x xs (lines rest) pushed (omega (arith, bound, length-prefix rows more))
      ∙ scan-lines rest rows a.1 bound
      ∙ ap (λ k. ok (before (rows ++ k) [])) (sym kept)
]

-- Any rows of at least one cell are read back as they were written, but for those whose cells are
-- all empty, as long as at most 10001 rows are left.
pub read_rows-write_rows :
    (row : List Text) (rows : List (List Text))
    → All IsRow (row ∷ rows)
    → length (keep full_row (row ∷ rows)) ≤ max_rows
    → read_rows (write_rows (row ∷ rows)) ≡ ok (keep full_row (row ∷ rows))
unfolding read_rows start_scan
read_rows-write_rows row rows a h =
    let scanned =
      ap (λ t. scan false t (before [] [])) (write_rows-lines row rows)
      ∙ scan-lines (row ∷ rows) [] a h in
    ap (λ r. r >>= λ s. last_row s >>= λ t. ok t.rows) scanned
