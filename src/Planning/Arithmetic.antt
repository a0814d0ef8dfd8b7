-- ===== src/Planning/Arithmetic.antt =====
-- The arithmetic on doubles that cmd/web/planning.js uses.
use osmmini.Base.{ℕ, Bool}
use osmmini.Base.Int.{pos}
use osmmini.Json.Numbers.{Number, whole}

-- Each operation is the one of JavaScript; `min` and `max` are those of `Math`, `rem` is `%`.
pub record Arithmetic : Type 0 where
  pub add : Number → Number → Number
  pub sub : Number → Number → Number
  pub mul : Number → Number → Number
  pub div : Number → Number → Number
  pub rem : Number → Number → Number
  pub less : Number → Number → Bool
  pub leq : Number → Number → Bool
  pub min : Number → Number → Number
  pub max : Number → Number → Number
  pub abs : Number → Number
  pub sin : Number → Number
  pub cos : Number → Number
  pub asin : Number → Number
  pub sqrt : Number → Number
  pub round : Number → Number
  -- `Math.PI`, 1e-12, 0.01 and 6371008.8
  pub pi : Number
  pub tiny : Number
  pub centimetre : Number
  pub radius : Number

abbrev pub int : ℕ → Number
int n = whole (pos n)

abbrev pub Point : Type 0
Point = Number × Number
