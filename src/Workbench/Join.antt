-- ===== src/Workbench/Join.antt =====
-- `join` of cmd/web/geo-workbench.js: the columns of a CSV table are added to the features whose
-- attribute is the key of a row.
use osmmini.Base.{
  ℕ, suc, ◌-◌, Bool, not, ◌&&◌, ◌||◌, Option, none, some, List, [], ◌∷◌, ◌++◌, Text, codes, text_eq,
  keep, any, is_nil, trim, length, find_key, if◌then◌else◌, ok, err, ◌>>=◌,
}
use osmmini.Json.{Value, string, object, Fields, lookup}
use osmmini.Json.Numbers.{Number}
use osmmini.Workbench.Objects.{
  clone, set_member, set_field, properties, features, with_features, owns, text,
}
use osmmini.Workbench.Select.{fields, includes}
use osmmini.Workbench.Csv.{Table}
use osmmini.Workbench.Problem.{Checked, no_key_column, bad_key, attribute_exists}

abbrev pub Row : Type 0
Row = List (Text × Text)

-- `row[column]` of a row that has all columns.
abbrev pub cell_of : Text → Row → Text
cell_of column row = or_nothing (find_key column row)
  where
    or_nothing : Option Text → Text
    or_nothing none = []
    or_nothing (some s) = s

abbrev has_row : Text → List (Text × Row) → Bool
has_row key table = any (λ e. text_eq e.0 key) table

-- The rows by their keys.
unfoldable pub index_rows : Text → List Row → List (Text × Row) → Checked (List (Text × Row))
index_rows column [] table = ok table
index_rows column (row ∷ rest) table =
    let key = cell_of column row in
    let next = index_rows column rest (table ++ (key, row) ∷ []) in
    if is_nil (trim key) || has_row key table then err bad_key else next

abbrev pub csv_key : Text → Text
csv_key h = codes "csv_" ++ h

-- The columns of one row, added to the attributes of one feature.
unfoldable pub add_columns : Row → List Text → Fields → Checked Fields
add_columns row [] fs = ok fs
add_columns row (h ∷ rest) fs =
    let next = add_columns row rest (set_member (csv_key h) (string (cell_of h row)) fs) in
    if owns (csv_key h) fs then err attribute_exists else next

pub record Joined : Type 0 where
  pub collection : Value
  pub matched : ℕ
  pub unmatched : ℕ

module _ (show : Number → Text) (stringify : Value → Text) where
  -- The row of a feature, where it has the attribute and the table the key.
  unfoldable pub row_of : Text → List (Text × Row) → Value → Option Row
  unfolding properties text
  row_of name table f =
      if owns name (properties f)
      then find_key (text show stringify (lookup name (properties f))) table
      else none

  abbrev pub add_row : List Text → Option Row → Value → Checked Value
  add_row columns none f = ok f
  add_row columns (some row) f = add_columns row columns (properties f) >>= λ fs.
      ok (set_field (codes "properties") (object fs) f)

  abbrev count_row : Option Row → ℕ → ℕ
  count_row none n = n
  count_row (some row) n = suc n

  -- The loop over the features, with the number of those that found a row.
  unfoldable pub join_features :
      Text → List (Text × Row) → List Text → List Value → Checked (List Value × ℕ)
  unfolding row_of add_columns properties set_member
  join_features name table columns [] = ok ([], 0)
  join_features name table columns (f ∷ rest) = add_row columns (row_of name table f) f >>= λ g.
      join_features name table columns rest >>= λ more.
      ok (g ∷ more.0, count_row (row_of name table f) more.1)

  unfoldable pub join : Value → Table → Text → Text → Checked Joined
  unfolding index_rows join_features features with_features fields clone
  join collection csv name column =
      let joined = index_rows column csv.rows [] >>= λ table.
      join_features name table (keep (λ h. not (text_eq h column)) csv.header)
        (features (clone collection))
      >>= λ result. ok (record {
        collection = with_features result.0 (clone collection);
        matched = result.1;
        unmatched = length (features collection) - result.1;
      }) in
      if includes name (fields collection) && includes column csv.header
      then joined
      else err no_key_column
