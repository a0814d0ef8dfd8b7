-- ===== src/Json/Numbers.antt =====
-- Numbers of JavaScript, as far as the program tells them apart without arithmetic.
use osmmini.Base.{
  ℕ, suc, ◌+◌, Bool, true, false, ◌&&◌, leb, ltb, ◌==◌, if◌then◌else◌, Option, none, some,
}
use osmmini.Base.Int.{ℤ, pos, negsuc, pos_part, neg_part, eqb_ℤ}

-- `between i f` lies strictly between the integers `i` and `i + 1`; `f` says which of the doubles
-- there it is. `-0` is `whole (pos 0)`: no test of the program tells them apart.
pub data Number : Type 0 where
  whole : ℤ → Number
  between : ℤ → ℕ → Number
  nan : Number
  infinite : Bool → Number

-- `Math.abs(n) <= bound` for a whole `bound`, and `Number.isFinite(n)`.
abbrev pub within : ℕ → Number → Bool
within bound (whole i) = leb (pos_part i + neg_part i) bound
within bound (between (pos i) f) = ltb i bound
within bound (between (negsuc i) f) = leb (suc i) bound
within bound nan = false
within bound (infinite _) = false

abbrev pub safe_bound : ℕ
safe_bound = 9007199254740991

-- `Number.isSafeInteger`.
abbrev pub safe_integer : Number → Option ℤ
safe_integer (whole i) = if leb (pos_part i + neg_part i) safe_bound then some i else none
safe_integer _ = none

abbrev bool_eq : Bool → Bool → Bool
bool_eq true b = b
bool_eq false true = false
bool_eq false false = true

-- `===` on numbers.
abbrev pub number_eq : Number → Number → Bool
number_eq (whole i) (whole j) = eqb_ℤ i j
number_eq (between i f) (between j g) = eqb_ℤ i j && f == g
number_eq (infinite s) (infinite t) = bool_eq s t
number_eq _ _ = false

-- `Number.isFinite`.
abbrev pub finite : Number → Bool
finite (whole i) = true
finite (between i f) = true
finite x = false
