-- ===== src/Planning.antt =====
-- cmd/web/planning.js: sketches of lines, sites and buildings, and what they measure.
pub mod Arithmetic
pub mod Measure
pub mod Balance
pub mod Items
pub mod Panel
pub mod Counting
mod Tests
