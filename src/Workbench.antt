-- ===== src/Workbench.antt =====
-- cmd/web/geo-workbench.js: the local workbench for GeoJSON and CSV files.
pub mod Problem
pub mod Objects
pub mod Validate
pub mod Select
pub mod Csv
pub mod Join
pub mod Simplify
pub mod Session
mod Tests
