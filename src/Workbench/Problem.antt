-- ===== src/Workbench/Problem.antt =====
-- The errors that cmd/web/geo-workbench.js throws, one constructor for each message.
use osmmini.Base.{Option, Result}
use osmmini.Json.{Value}

pub data Problem : Type 0 where
  no_collection has_crs too_many_features invalid_position too_many_points : Problem
  short_line open_ring no_outer_ring invalid_geometry : Problem
  invalid_points invalid_lines invalid_polygons invalid_geometries : Problem
  unsupported_type : Option Value → Problem
  invalid_feature invalid_selection no_such_attribute nested_attribute : Problem
  no_finite_number no_boolean : Problem
  csv_too_large csv_too_long invalid_quotes open_quote bad_header uneven_rows : Problem
  no_key_column bad_key attribute_exists : Problem
  no_json file_too_large state_too_large no_file : Problem

abbrev pub Checked : Type 0 → Type 0
Checked A = Result Problem A
