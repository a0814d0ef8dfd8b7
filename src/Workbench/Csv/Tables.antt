-- ===== src/Workbench/Csv/Tables.antt =====
-- Reading the table that cmd/web/geo-workbench.js exports.
use osmmini.Base.{
  ◌≤◌, ◌≡◌, refl, ap, sym, ◌∙◌, inl, inr, Bool, true, false, List, [], ◌∷◌, map, Text, any, is_nil,
  All, keep, length, length-map, arith, ltb, Bool-cases, ok, ◌>>=◌,
}
use osmmini.Json.{Value, lookup}
use osmmini.Json.Numbers.{Number}
use osmmini.Workbench.Objects.{features, properties, text}
use osmmini.Workbench.Select.{fields}
use osmmini.Workbench.Csv.Rows.{full_row, max_rows, write_rows}
use osmmini.Workbench.Csv.RoundTrip.{IsRow, lines, write_rows-lines, read_rows-write_rows}
use osmmini.Workbench.Csv.{
  table_of, table_rows, to_csv, parse_csv, read_rows, neutral, good_header, uneven, cells,
  byte_length, max_bytes, without_mark,
}

length-keep : (p : List Text → Bool) (xs : List (List Text)) → length (keep p xs) ≤ length xs
length-keep p [] = omega arith
length-keep p (x ∷ xs) = let below = length-keep p xs in ground (arith, below)

without_mark-lines :
    (x : Text) (xs : List Text) (rows : List (List Text))
    → without_mark (lines ((x ∷ xs) ∷ rows)) ≡ lines ((x ∷ xs) ∷ rows)
unfolding lines
without_mark-lines x [] rows = refl
without_mark-lines x (y ∷ ys) rows = refl

without_mark-write_rows :
    (row : List Text) (rows : List (List Text))
    → is_nil row ≡ false
    → without_mark (write_rows (row ∷ rows)) ≡ write_rows (row ∷ rows)
without_mark-write_rows [] rows h = cc
without_mark-write_rows (x ∷ xs) rows h =
    ap without_mark (write_rows-lines (x ∷ xs) rows)
    ∙ without_mark-lines x xs rows
    ∙ sym (write_rows-lines (x ∷ xs) rows)

is_nil-map : {A B : Type 0} (f : A → B) (xs : List A) → is_nil (map f xs) ≡ is_nil xs
is_nil-map f [] = refl
is_nil-map f (x ∷ xs) = refl

full_row-good_header :
    (header : List Text)
    → is_nil header ≡ false
    → good_header header ≡ true
    → full_row header ≡ true
full_row-good_header [] n h = cc
full_row-good_header ([] ∷ xs) n h = cc
full_row-good_header ((c ∷ s) ∷ xs) n h = refl

table_of-eq :
    (header : List Text) (rows : List (List Text))
    → is_nil header ≡ false
    → good_header header ≡ true
    → any (uneven header) rows ≡ false
    → table_of (header ∷ rows) ≡ ok (record { header = header; rows = map (cells header) rows })
unfolding table_of
table_of-eq header rows n g e = rw (n, g, e) refl

module _ (show : Number → Text) (stringify : Value → Text) where
  abbrev pub values : List Text → Value → List Text
  values keys f = map (λ k. neutral (text show stringify (lookup k (properties f)))) keys

  All-values :
      (keys : List Text) (fs : List Value) → is_nil keys ≡ false → All IsRow (map (values keys) fs)
  unfolding IsRow
  All-values keys [] n = tt
  All-values keys (f ∷ fs) n = (is_nil-map _ keys ∙ n, All-values keys fs n)

  even_values : (keys : List Text) (f : Value) → uneven (map neutral keys) (values keys f) ≡ false
  even_values keys f =
      let row : length (values keys f) ≡ length keys = length-map _ keys in
      let header : length (map neutral keys) ≡ length keys = length-map neutral keys in
      ground (arith, row, header)

  any-uneven :
      (keys : List Text) (fs : List Value)
      → any (uneven (map neutral keys)) (keep full_row (map (values keys) fs)) ≡ false
  any-uneven keys [] = refl
  any-uneven keys (f ∷ fs) = elim (Bool-cases (full_row (values keys f))) [
    | inl e ↦ rw (e, even_values keys f) (any-uneven keys fs)
    | inr e ↦ rw e (any-uneven keys fs)
  ]

  -- An exported table of at most 10 MiB is read back with the names of the attributes as its header,
  -- and with a row for each object that has a text that is not empty, where there are at most 10000
  -- objects and the names make a header: at least one and at most 100 of them, no two of them the same
  -- and none blank. Names and texts come back as they stand in the export, with the mark before those
  -- that look like formulas.
  pub parse_csv-to_csv :
      (collection : Value)
      → is_nil (fields collection) ≡ false
      → good_header (map neutral (fields collection)) ≡ true
      → length (features collection) ≤ 10000
      → byte_length (to_csv show stringify collection) ≤ max_bytes
      → parse_csv (to_csv show stringify collection)
        ≡ ok (record {
          header = map neutral (fields collection);
          rows =
              map
                (cells (map neutral (fields collection)))
                (keep full_row (map (values (fields collection)) (features collection)));
        })
  unfolding parse_csv to_csv table_rows IsRow
  parse_csv-to_csv collection n g few small =
      let keys = fields collection in
      let header = map neutral keys in
      let rows = map (values keys) (features collection) in
      let named : is_nil header ≡ false = is_nil-map neutral keys ∙ n in
      let full = full_row-good_header header named g in
      let kept : keep full_row (header ∷ rows) ≡ header ∷ keep full_row rows = rw full refl in
      let count : length (keep full_row (header ∷ rows)) ≤ max_rows = omega (
        arith,
        few,
        length-map (values keys) (features collection),
        length-keep full_row rows,
        ap length kept,
      ) in
      let read =
        read_rows-write_rows header rows (named, All-values keys (features collection) n) count in
      let fits : ltb max_bytes (byte_length (write_rows (header ∷ rows))) ≡ false = ground arith in
      rw fits (
        ap (λ s. read_rows s >>= table_of) (without_mark-write_rows header rows named)
        ∙ ap (λ r. r >>= table_of) (read ∙ ap ok kept)
        ∙ table_of-eq header (keep full_row rows) named g (any-uneven keys (features collection)))
