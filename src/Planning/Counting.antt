-- ===== src/Planning/Counting.antt =====
-- An arithmetic for tests of cmd/web/planning.js and cmd/web/app.js: that of the natural numbers,
-- without quotients.
use osmmini.Base.{ℕ, ◌+◌, ◌-◌, ◌*◌, ltb, leb, if◌then◌else◌}
use osmmini.Base.Int.{pos}
use osmmini.Json.Numbers.{Number, whole}
use osmmini.Planning.Arithmetic.{Arithmetic, int}

abbrev amount : Number → ℕ
amount (whole (pos n)) = n
amount x = 0

abbrev pub counting : Arithmetic
counting = record {
  add = λ x y. int (amount x + amount y);
  sub = λ x y. int (amount x - amount y);
  mul = λ x y. int (amount x * amount y);
  div = λ x y. x;
  rem = λ x y. x;
  less = λ x y. ltb (amount x) (amount y);
  leq = λ x y. leb (amount x) (amount y);
  min = λ x y. if ltb (amount x) (amount y) then x else y;
  max = λ x y. if ltb (amount x) (amount y) then y else x;
  abs = λ x. x;
  sin = λ x. x;
  cos = λ x. int 1;
  asin = λ x. x;
  sqrt = λ x. x;
  round = λ x. x;
  pi = int 0;
  tiny = int 0;
  centimetre = int 0;
  radius = int 1;
}
