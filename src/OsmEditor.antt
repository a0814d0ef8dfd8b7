-- ===== src/OsmEditor.antt =====
-- cmd/web/osm-editor.js: the versioned editing workspace for OSM objects.
pub mod Problem
pub mod Tags
pub mod Element
pub mod Draft
pub mod References
pub mod Changes
pub mod Export
pub mod Xml
pub mod Workspace
pub mod Way
mod Tests
