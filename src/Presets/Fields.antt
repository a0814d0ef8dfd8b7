-- ===== src/Presets/Fields.antt =====
-- The table `fields` of cmd/web/osm-presets.js.
pub mod Common
pub mod Special
use osmmini.Base.{List, ◌++◌, Text}
use osmmini.Presets.Kinds.{Field}
use Common.{common_fields}
use Special.{special_fields, address_fields}

unfoldable pub fields : List (Text × Field)
unfolding common_fields special_fields address_fields
fields = common_fields ++ (special_fields ++ address_fields)
