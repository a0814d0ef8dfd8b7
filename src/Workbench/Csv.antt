-- ===== src/Workbench/Csv.antt =====
-- `parseCSV` and `toCSV` of cmd/web/geo-workbench.js.
pub mod Rows
pub mod RoundTrip
pub mod Tables
use osmmini.Base.{
  ℕ, zero, suc, ◌+◌, ◌*◌, Bool, true, false, not, ◌&&◌, ◌||◌, Option, none, some, List, [], ◌∷◌,
  ◌++◌, map, Text, codes, text_eq, keep, any, is_nil, trim, is_space, skip_spaces, length, ltb,
  ◌==◌, if◌then◌else◌, ok, err, ◌>>=◌,
}
use osmmini.Json.{Value, lookup}
use osmmini.Json.Numbers.{Number}
use osmmini.Workbench.Objects.{properties, features, text}
use osmmini.Workbench.Select.{fields, distinct}
use osmmini.Workbench.Problem.{Checked, csv_too_large, open_quote, bad_header, uneven_rows}
use Rows.{Scan, scan, start_scan, finish_row, write_rows}

abbrev pub max_bytes : ℕ
max_bytes = 10 * 1024 * 1024

-- The bytes of a character in UTF-8, as `TextEncoder` writes it.
abbrev bytes_of : ℕ → ℕ
bytes_of c = if ltb c 0x80 then 1 else (if ltb c 0x800 then 2 else (if ltb c 0x10000 then 3 else 4))

abbrev pub byte_length : Text → ℕ
byte_length [] = 0
byte_length (c ∷ s) = bytes_of c + byte_length s

-- `source.replace(/^\uFEFF/, '')`
abbrev pub without_mark : Text → Text
without_mark [] = []
without_mark (c ∷ s) = if c == 0xFEFF then s else c ∷ s

pub record Table : Type 0 where
  pub header : List Text
  pub rows : List (List (Text × Text))

abbrev pub blank : Text → Bool
blank h = is_nil (trim h)

abbrev pub good_header : List Text → Bool
good_header header =
    not (any blank header)
    && (length (distinct header) == length header && not (ltb 100 (length header)))

abbrev pub uneven : List Text → List Text → Bool
uneven header row = not (length row == length header)

abbrev pub cells : List Text → List Text → List (Text × Text)
cells (h ∷ header) (x ∷ row) = (h, x) ∷ cells header row
cells _ _ = []

-- The rows, the first of which is the header.
unfoldable pub table_of : List (List Text) → Checked Table
table_of [] = err bad_header
table_of (header ∷ rows) =
    if is_nil header || not (good_header header)
    then err bad_header
    else if any (uneven header) rows
    then err uneven_rows
    else ok (record { header = header; rows = map (cells header) rows })

-- What the loop leaves is a last row, unless there is nothing of it.
abbrev pub last_row : Scan → Checked Scan
last_row s =
    let finished = finish_row s in
    if s.quoted
    then err open_quote
    else (if not (is_nil s.cell) || (not (is_nil s.row) || s.closed) then finished else ok s)

unfoldable pub read_rows : Text → Checked (List (List Text))
unfolding scan start_scan finish_row
read_rows source = scan false source start_scan >>= λ s. last_row s >>= λ t. ok t.rows

unfoldable pub parse_csv : Text → Checked Table
unfolding read_rows table_of
parse_csv source =
    let read = read_rows (without_mark source) >>= λ rows. table_of rows in
    if ltb max_bytes (byte_length source) then err csv_too_large else read

-- A text that a spreadsheet would take for a formula.
abbrev pub formula : Text → Bool
formula [] = false
formula (c ∷ s) = c == 0x3D || (c == 0x2B || (c == 0x40 || c == 0x2D))

abbrev pub control : Text → Bool
control [] = false
control (c ∷ s) = c == 9 || (c == 13 || c == 10)

unfoldable pub neutral : Text → Text
neutral s = if formula (skip_spaces s) || control s then 0x27 ∷ s else s

module _ (show : Number → Text) (stringify : Value → Text) where
  -- The texts of a collection's table, before they are quoted.
  unfoldable pub table_rows : Value → List (List Text)
  unfolding fields features properties neutral text
  table_rows collection =
      let keys = fields collection in
      map neutral keys
      ∷ map (λ f. map (λ k. neutral (text show stringify (lookup k (properties f)))) keys)
          (features collection)

  unfoldable pub to_csv : Value → Text
  unfolding table_rows write_rows
  to_csv collection = write_rows (table_rows collection)
