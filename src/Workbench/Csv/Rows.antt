-- ===== src/Workbench/Csv/Rows.antt =====
-- The scanner of `parseCSV` in cmd/web/geo-workbench.js, and how `toCSV` writes rows of texts.
use osmmini.Base.{
  ℕ, Bool, true, false, not, ◌&&◌, ◌||◌, List, [], ◌∷◌, ◌++◌, map, Text, codes, any, is_nil, length,
  ltb, ◌==◌, if◌then◌else◌, ok, err, ◌>>=◌,
}
use osmmini.Workbench.Problem.{Checked, csv_too_long, invalid_quotes}

-- The variables of the scanner.
pub record Scan : Type 0 where
  pub rows : List (List Text)
  pub row : List Text
  pub cell : Text
  pub quoted : Bool
  pub closed : Bool
  pub start : Bool

unfoldable pub start_scan : Scan
start_scan = record { rows = []; row = []; cell = []; quoted = false; closed = false; start = true }

abbrev pub finish_cell : Scan → Scan
finish_cell s = record s { row = s.row ++ s.cell ∷ []; cell = []; closed = false; start = true }

abbrev pub full_row : List Text → Bool
full_row row = any (λ x. not (is_nil x)) row

-- Rows of empty cells are dropped.
abbrev pub push_row : List Text → List (List Text) → List (List Text)
push_row row rows = if full_row row then rows ++ row ∷ [] else rows

abbrev pub max_rows : ℕ
max_rows = 10001

unfoldable pub finish_row : Scan → Checked Scan
finish_row s =
    let rows = push_row (s.row ++ s.cell ∷ []) s.rows in
    if ltb max_rows (length rows)
    then err csv_too_long
    else ok (record s { rows = rows; row = []; cell = []; closed = false; start = true })

abbrev pub follows : ℕ → Text → Bool
follows d [] = false
follows d (c ∷ rest) = c == d

abbrev add_char : ℕ → Scan → Scan
add_char c s = record s { cell = s.cell ++ c ∷ [] }

-- What follows is `source[i + 1]`; the flag says that the loop skips it.
unfoldable pub in_quotes : ℕ → Text → Scan → Bool × Scan
in_quotes c rest s =
    if c == 0x22
    then (if follows 0x22 rest
        then (true, add_char 0x22 s)
        else (false, record s { quoted = false; closed = true }))
    else (false, add_char c s)

abbrev with_flag : Bool → Scan → Bool × Scan
with_flag b s = (b, s)

unfoldable pub outside_quotes : ℕ → Text → Scan → Checked (Bool × Scan)
unfolding finish_row
outside_quotes c rest s =
    let ended = finish_row s >>= λ t. ok (with_flag (c == 0x0D && follows 0x0A rest) t) in
    if c == 0x2C
    then ok (false, finish_cell s)
    else if c == 0x0D || c == 0x0A
    then ended
    else if c == 0x22 && s.start
    then ok (false, record s { quoted = true; start = false })
    else if s.closed || c == 0x22
    then err invalid_quotes
    else ok (false, record s { cell = s.cell ++ c ∷ []; start = false })

abbrev pub step_char : Bool → ℕ → Text → Scan → Checked (Bool × Scan)
step_char true c rest s = ok (in_quotes c rest s)
step_char false c rest s = outside_quotes c rest s

-- The loop; `skip` is set where the round before moved `i` on.
unfoldable pub scan : Bool → Text → Scan → Checked Scan
unfolding in_quotes outside_quotes
scan skip [] s = ok s
scan true (c ∷ rest) s = scan false rest s
scan false (c ∷ rest) s = step_char s.quoted c rest s >>= λ next. scan next.0 rest next.1

-- `s.replace(/"/g, '""')`
abbrev pub double_quotes : Text → Text
double_quotes [] = []
double_quotes (c ∷ s) =
    let rest = double_quotes s in if c == 0x22 then 0x22 ∷ 0x22 ∷ rest else c ∷ rest

abbrev pub quote : Text → Text
quote s = 0x22 ∷ (double_quotes s ++ 0x22 ∷ [])

-- `xs.join(separator)`
abbrev pub joined : Text → List Text → Text
joined separator [] = []
joined separator (x ∷ []) = x
joined separator (x ∷ y ∷ rest) = x ++ (separator ++ joined separator (y ∷ rest))

abbrev pub write_row : List Text → Text
write_row row = joined (codes ",") (map quote row)

-- `rows.join('\r\n') + '\r\n'`
unfoldable pub write_rows : List (List Text) → Text
write_rows rows = joined (0x0D ∷ 0x0A ∷ []) (map write_row rows) ++ 0x0D ∷ 0x0A ∷ []
