-- ===== src/Base/Results.antt =====
-- What a function that may throw returns.
use Prim.Native.Nat.{suc}
use mathlib.Core.Path.{◌≡◌, refl, ap, subst}
use mathlib.Core.Option.{Option, none, some}
use mathlib.Core.Bool.{Bool, true, false}
use osmmini.Base.Tests.{if◌then◌else◌}
use osmmini.Base.Lists.{All, length}
use mathlib.Core.List.{List, [], ◌∷◌, map}

pub data Result {ℓ} (E : Type 0) (A : Type ℓ) : Type ℓ where
  ok : A → Result E A
  err : E → Result E A

infixl 5 ◌>>=◌ ◌>>◌
abbrev pub ◌>>=◌ {ℓ κ} :
    {E : Type 0} {A : Type ℓ} {B : Type κ} → Result E A → (A → Result E B) → Result E B
ok value >>= next = next value
err problem >>= next = err problem

abbrev pub ◌>>◌ {ℓ κ} :
    {E : Type 0} {A : Type ℓ} {B : Type κ} → Result E A → Result E B → Result E B
first >> second = first >>= λ _. second

module _ {ℓ κ} {E : Type 0} {A : Type ℓ} {B : Type κ} where
  -- What stands behind a call that succeeded.
  pub >>=-eq-ok :
      (first : Result E A) (next : A → Result E B) {result : B}
      → (first >>= next) ≡ ok result
      → (value : A) × (first ≡ ok value) × (next value ≡ ok result)
  >>=-eq-ok (err problem) next h = cc
  >>=-eq-ok (ok value) next h = (value, refl, h)

-- `xs.map(f)` where `f` may throw: the first error ends it.
abbrev pub traverse {ℓ κ} :
    {E : Type 0} {A : Type ℓ} {B : Type κ} → (A → Result E B) → List A → Result E (List B)
traverse f [] = ok []
traverse f (x ∷ xs) = f x >>= λ y. traverse f xs >>= λ ys. ok (y ∷ ys)

-- A postcondition of the value that is returned, if one is.
abbrev pub Ensures : {E A : Type 0} → (A → Type 0) → Result E A → Type 0
Ensures P (ok a) = P a
Ensures P (err e) = Unit

abbrev pub Holds : {A : Type 0} → (A → Type 0) → Option A → Type 0
Holds P none = Unit
Holds P (some a) = P a

module _ {E A : Type 0} where
  pub Ensures-eq : (P : A → Type 0) (r : Result E A) {a : A} → Ensures P r → r ≡ ok a → P a
  Ensures-eq P (ok b) {a} h e = let q : b ≡ a = cc in subst P q h
  Ensures-eq P (err x) h e = cc

  -- Whatever is said of each value that a call can return holds after it.
  pub Ensures-of_eq : (P : A → Type 0) (r : Result E A) → ((a : A) → r ≡ ok a → P a) → Ensures P r
  Ensures-of_eq P (ok b) f = f b refl
  Ensures-of_eq P (err x) f = tt

  pub Ensures-bind :
      {B : Type 0} (P : A → Type 0) (Q : B → Type 0) (m : Result E A) (f : A → Result E B)
      → Ensures P m
      → ((a : A) → P a → Ensures Q (f a))
      → Ensures Q (m >>= f)
  Ensures-bind P Q (ok a) f h k = k a h
  Ensures-bind P Q (err e) f h k = tt

  pub Ensures-weaken :
      (P Q : A → Type 0) (r : Result E A) → Ensures P r → ((a : A) → P a → Q a) → Ensures Q r
  Ensures-weaken P Q (ok a) h f = f a h
  Ensures-weaken P Q (err x) h f = tt

  pub Ensures-any : (r : Result E A) → Ensures (λ _. Unit {0}) r
  Ensures-any (ok a) = tt
  Ensures-any (err e) = tt

module _ {E A B : Type 0} where
  -- The values of a mapping all satisfy what the function ensures, one for each argument.
  pub Ensures-traverse :
      (P : B → Type 0) (f : A → Result E B) (xs : List A)
      → ((a : A) → Ensures P (f a))
      → Ensures (λ ys. All P ys × (length ys ≡ length xs)) (traverse f xs)
  Ensures-traverse P f [] h = (tt, refl)
  Ensures-traverse P f (x ∷ xs) h = Ensures-bind P _ (f x) _ (h x) λ y p.
      Ensures-bind _ _ (traverse f xs) _ (Ensures-traverse P f xs h) λ ys q. ((p, q.0), ap suc q.1)

  pub traverse-map :
      (P : B → Type 0) (f : A → Result E B) (g : B → A)
      → ((b : B) → P b → f (g b) ≡ ok b)
      → (bs : List B) → All P bs
      → traverse f (map g bs) ≡ ok bs
  traverse-map P f g h [] a = refl
  traverse-map P f g h (b ∷ bs) a = rw (h b a.0, traverse-map P f g h bs a.1) refl

module _ {A : Type 0} where
  pub Holds-eq : (P : A → Type 0) (o : Option A) {a : A} → Holds P o → o ≡ some a → P a
  Holds-eq P none h e = cc
  Holds-eq P (some b) {a} h e = let q : b ≡ a = cc in subst P q h

-- What stands behind a guard that was passed.
pub guarded-eq-ok :
    {E A : Type 0} (b : Bool) (problem : E) (r : Result E A) {a : A}
    → (if b then err problem else r) ≡ ok a
    → (b ≡ false) × (r ≡ ok a)
guarded-eq-ok true problem r h = cc
guarded-eq-ok false problem r h = (refl, h)
