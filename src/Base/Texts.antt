-- ===== src/Base/Texts.antt =====
-- Text as the list of its code points, as JavaScript iterates over a string. A lone surrogate is
-- an item of its own.
use Prim.Native.Nat.{ℕ, zero, suc, ◌+◌, ◌-◌, ◌/◌, ◌%◌}
use Prim.Native.Char.{code}
use Prim.Native.String.{String}
use mathlib.Core.Path.{◌≡◌, refl, ap, ◌∙◌}
use mathlib.Core.Logic.{◌↔◌, inl, inr}
use mathlib.Core.Bool.{Bool, true, false, ◌&&◌, ◌||◌}
use mathlib.Core.Option.{Option, none, some}
use mathlib.Core.List.{List, [], ◌∷◌, ◌++◌}
use native.Mathlib.Omega.{arith}
use osmmini.Base.Tests.{leb, ltb, ◌==◌, if◌then◌else◌, Bool-cases}

abbrev pub Text : Type 0
Text = List ℕ

abbrev pub codes : String → Text
codes String.[] = []
codes (String.◌∷◌ c s) = code c ∷ codes s

-- `===` on strings.
abbrev pub text_eq : Text → Text → Bool
text_eq [] [] = true
text_eq (c ∷ s) (d ∷ t) = c == d && text_eq s t
text_eq _ _ = false

text_eq→≡ : (s t : Text) → text_eq s t ≡ true → s ≡ t
text_eq→≡ [] [] h = refl
text_eq→≡ [] (d ∷ t) h = cc
text_eq→≡ (c ∷ s) [] h = cc
text_eq→≡ (c ∷ s) (d ∷ t) h = ground (arith, text_eq→≡ s t)

pub text_eq_refl : (s : Text) → text_eq s s ≡ true
text_eq_refl [] = refl
text_eq_refl (c ∷ s) = ground (arith, text_eq_refl s)

pub text_eq_iff : (s t : Text) → (text_eq s t ≡ true) ↔ (s ≡ t)
text_eq_iff s t = (text_eq→≡ s t, λ e. rw e (text_eq_refl t))

-- The UTF-16 code units of a code point.
abbrev pub code_units : ℕ → List ℕ
code_units c =
    if ltb c 65536
    then c ∷ []
    else (0xD800 + (c - 65536) / 1024) ∷ (0xDC00 + (c - 65536) % 1024) ∷ []

abbrev pub utf16 : Text → List ℕ
utf16 [] = []
utf16 (c ∷ s) = code_units c ++ utf16 s

-- `<` on lists of code units, the order of `Array.prototype.sort` on strings.
abbrev pub units_lt : List ℕ → List ℕ → Bool
units_lt [] [] = false
units_lt [] (d ∷ t) = true
units_lt (c ∷ s) [] = false
units_lt (c ∷ s) (d ∷ t) = ltb c d || (c == d && units_lt s t)

abbrev pub text_lt : Text → Text → Bool
text_lt s t = units_lt (utf16 s) (utf16 t)

pub text_eq_comm : (s t : Text) → text_eq s t ≡ text_eq t s
text_eq_comm [] [] = refl
text_eq_comm [] (d ∷ t) = refl
text_eq_comm (c ∷ s) [] = refl
text_eq_comm (c ∷ s) (d ∷ t) = ground (arith, text_eq_comm s t)

-- `===` where a text may be missing.
abbrev pub optional_eq : Option Text → Option Text → Bool
optional_eq none none = true
optional_eq (some s) (some t) = text_eq s t
optional_eq _ _ = false

pub optional_eq_iff : (a b : Option Text) → (optional_eq a b ≡ true) ↔ (a ≡ b)
optional_eq_iff none none = (λ _. refl, λ _. refl)
optional_eq_iff none (some t) = (λ h. cc, λ h. cc)
optional_eq_iff (some s) none = (λ h. cc, λ h. cc)
optional_eq_iff (some s) (some t) =
    (λ h. ap some ((text_eq_iff s t).0 h), λ h. (text_eq_iff s t).1 (let q : s ≡ t = cc in q))

-- The characters that `String.prototype.trim` removes.
abbrev pub is_space : ℕ → Bool
is_space c =
    leb 9 c && leb c 13
    || (c == 32
        || (c == 0xA0
            || (c == 0x1680
                || (leb 0x2000 c && leb c 0x200A
                    || (c == 0x2028
                        || (c == 0x2029
                            || (c == 0x202F || (c == 0x205F || (c == 0x3000 || c == 0xFEFF)))))))))

abbrev pub skip_spaces : Text → Text
skip_spaces [] = []
skip_spaces (c ∷ s) = let rest = skip_spaces s in if is_space c then rest else c ∷ s

abbrev pub put_unless_last_space : ℕ → Text → Text
put_unless_last_space c [] = if is_space c then [] else c ∷ []
put_unless_last_space c (d ∷ r) = c ∷ d ∷ r

abbrev pub drop_spaces_after : Text → Text
drop_spaces_after [] = []
drop_spaces_after (c ∷ s) = put_unless_last_space c (drop_spaces_after s)

-- `String.prototype.trim`
abbrev pub trim : Text → Text
trim s = drop_spaces_after (skip_spaces s)

-- The entry of a key in an object without a prototype, or in a `Map`.
abbrev pub find_key {ℓ} : {A : Type ℓ} → Text → List (Text × A) → Option A
find_key k [] = none
find_key k ((j, v) ∷ rest) = if text_eq j k then some v else find_key k rest

-- `s.slice(0, n)`, which counts code units: of a character that is cut in two, the first half stays.
abbrev pub high_half : ℕ → ℕ
high_half c = 0xD800 + (c - 65536) / 1024 % 1024

abbrev pub take_units : ℕ → Text → Text
take_units zero s = []
take_units (suc n) [] = []
take_units (suc zero) (c ∷ s) = if ltb c 65536 then c ∷ [] else high_half c ∷ []
take_units (suc (suc n)) (c ∷ s) =
    let narrow = take_units (suc n) s in
    let wide = take_units n s in if ltb c 65536 then c ∷ narrow else c ∷ wide

module _ (c : ℕ) where
  drop-put :
      (r : Text)
      → drop_spaces_after r ≡ r
      → drop_spaces_after (put_unless_last_space c r) ≡ put_unless_last_space c r
  drop-put [] h = elim (Bool-cases (is_space c)) [ inl e ↦ rw e refl | inr e ↦ rw (e, e) refl ]
  drop-put (d ∷ r) h = ap (put_unless_last_space c) h

  skip-put :
      (r : Text)
      → is_space c ≡ false
      → skip_spaces (put_unless_last_space c r) ≡ put_unless_last_space c r
  skip-put [] e = rw (e, e) refl
  skip-put (d ∷ r) e = rw e refl

drop-drop : (s : Text) → drop_spaces_after (drop_spaces_after s) ≡ drop_spaces_after s
drop-drop [] = refl
drop-drop (c ∷ s) = drop-put c (drop_spaces_after s) (drop-drop s)

skip-drop-skip :
    (s : Text) → skip_spaces (drop_spaces_after (skip_spaces s)) ≡ drop_spaces_after (skip_spaces s)
skip-drop-skip [] = refl
skip-drop-skip (c ∷ s) = elim (Bool-cases (is_space c)) [
  | inl e ↦ rw e (skip-drop-skip s)
  | inr e ↦ rw e (skip-put c (drop_spaces_after s) e)
]

-- To trim twice is to trim once.
pub trim-trim : (s : Text) → trim (trim s) ≡ trim s
trim-trim s = ap drop_spaces_after (skip-drop-skip s) ∙ drop-drop (skip_spaces s)
