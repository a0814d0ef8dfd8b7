-- ===== src/Presets.antt =====
-- cmd/web/osm-presets.js: the kinds of places that the guided editor offers, its typed fields, and its
-- words for the tags of the map.
pub mod Kinds
pub mod Fields
pub mod Places
pub mod Categories
pub mod Lookup
pub mod Checks
pub mod Ranked
mod Tests
pub mod Dates
