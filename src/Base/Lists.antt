-- ===== src/Base/Lists.antt =====
-- Lists measured by the native numbers, tests over their members, and predicates on them.
use Prim.Native.Nat.{ℕ, zero, suc, ◌+◌}
use mathlib.Core.Path.{◌≡◌, refl, sym, ap, subst, ◌∙◌}
use mathlib.Core.Logic.{◌⊎◌, inl, inr}
use mathlib.Core.Bool.{Bool, true, false, ◌&&◌, ◌||◌}
use mathlib.Core.Option.{Option, none, some}
use mathlib.Core.List.{List, [], ◌∷◌, ◌++◌, map}
use native.Mathlib.Omega.{arith}
use osmmini.Base.Tests.{if◌then◌else◌, Bool-cases}

module _ {ℓ} {A : Type ℓ} where
  abbrev pub length : List A → ℕ
  length [] = 0
  length (x ∷ xs) = suc (length xs)

  abbrev pub get_elem? : List A → ℕ → Option A
  get_elem? [] i = none
  get_elem? (x ∷ xs) zero = some x
  get_elem? (x ∷ xs) (suc i) = get_elem? xs i

  -- `Array.prototype.every` and `some`.
  abbrev pub all : (A → Bool) → List A → Bool
  all p [] = true
  all p (x ∷ xs) = p x && all p xs

  abbrev pub any : (A → Bool) → List A → Bool
  any p [] = false
  any p (x ∷ xs) = p x || any p xs

  -- `Array.prototype.filter` with a Boolean test.
  abbrev pub keep : (A → Bool) → List A → List A
  keep p [] = []
  keep p (x ∷ xs) = let rest = keep p xs in if p x then x ∷ rest else rest

  abbrev pub flat_map {κ} : {B : Type κ} → (A → List B) → List A → List B
  flat_map f [] = []
  flat_map f (x ∷ xs) = f x ++ flat_map f xs

  -- `!xs.length`
  abbrev pub is_nil : List A → Bool
  is_nil [] = true
  is_nil (_ ∷ _) = false

  -- `xs.slice(0, n)` and `xs.slice(n)`.
  abbrev pub take : ℕ → List A → List A
  take zero xs = []
  take (suc n) [] = []
  take (suc n) (x ∷ xs) = x ∷ take n xs

  abbrev pub drop : ℕ → List A → List A
  drop zero xs = xs
  drop (suc n) [] = []
  drop (suc n) (x ∷ xs) = drop n xs

  -- `Array.prototype.find`
  abbrev pub find : (A → Bool) → List A → Option A
  find p [] = none
  find p (x ∷ xs) = let rest = find p xs in if p x then some x else rest

  -- A stable sort: `fits x y` where `x` may stand before `y`, as they are.
  abbrev pub stable_insert : (A → A → Bool) → A → List A → List A
  stable_insert fits x [] = x ∷ []
  stable_insert fits x (y ∷ ys) =
      let rest = stable_insert fits x ys in if fits x y then x ∷ y ∷ ys else y ∷ rest

  abbrev pub stable_sort : (A → A → Bool) → List A → List A
  stable_sort fits [] = []
  stable_sort fits (x ∷ xs) = stable_insert fits x (stable_sort fits xs)

  -- A predicate of every member.
  abbrev pub All {κ} : (A → Type κ) → List A → Type κ
  All P [] = Unit
  All P (x ∷ xs) = P x × All P xs

  pub length-append : (xs ys : List A) → length (xs ++ ys) ≡ length xs + length ys
  length-append [] ys = omega arith
  length-append (x ∷ xs) ys = omega (arith, length-append xs ys)

pub length-map {ℓ κ} :
    {A : Type ℓ} {B : Type κ} (f : A → B) (xs : List A) → length (map f xs) ≡ length xs
length-map f [] = refl
length-map f (x ∷ xs) = ap suc (length-map f xs)

-- A place where a member stands.
abbrev pub In : {A : Type 0} → A → List A → Type 0
In a [] = ⊥
In a (x ∷ xs) = (a ≡ x) ⊎ In a xs

module _ {A : Type 0} where
  pub In-append_left : (a : A) (xs ys : List A) → In a xs → In a (xs ++ ys)
  In-append_left a [] ys h = absurd h
  In-append_left a (x ∷ xs) ys (inl e) = inl e
  In-append_left a (x ∷ xs) ys (inr h) = inr (In-append_left a xs ys h)

  pub In-append_right : (a : A) (xs ys : List A) → In a ys → In a (xs ++ ys)
  In-append_right a [] ys h = h
  In-append_right a (x ∷ xs) ys h = inr (In-append_right a xs ys h)

  pub In-append : (a : A) (xs ys : List A) → In a (xs ++ ys) → In a xs ⊎ In a ys
  In-append a [] ys h = inr h
  In-append a (x ∷ xs) ys (inl e) = inl (inl e)
  In-append a (x ∷ xs) ys (inr h) = elim (In-append a xs ys h) [
    | inl l ↦ inl (inr l)
    | inr r ↦ inr r
  ]

  pub All-In : (P : A → Type 0) (a : A) (xs : List A) → All P xs → In a xs → P a
  All-In P a [] h m = absurd m
  All-In P a (x ∷ xs) h (inl e) = rw e h.0
  All-In P a (x ∷ xs) h (inr m) = All-In P a xs h.1 m

  pub all-In : (p : A → Bool) (a : A) (xs : List A) → all p xs ≡ true → In a xs → p a ≡ true
  all-In p a [] h m = absurd m
  all-In p a (x ∷ xs) h (inl e) = ground (arith, ap p e)
  all-In p a (x ∷ xs) h (inr m) = all-In p a xs (ground arith) m

  pub any-In : (p : A → Bool) (a : A) (xs : List A) → In a xs → p a ≡ true → any p xs ≡ true
  any-In p a [] m h = absurd m
  any-In p a (x ∷ xs) (inl e) h = ground (arith, ap p e)
  any-In p a (x ∷ xs) (inr m) h = ground (arith, any-In p a xs m h)

  pub In-of_any : (p : A → Bool) (xs : List A) → any p xs ≡ true → (a : A) × In a xs × (p a ≡ true)
  In-of_any p [] h = cc
  In-of_any p (x ∷ xs) h = elim (Bool-cases (p x)) [
    | inl e ↦ (x, inl refl, e)
    | inr e ↦ let (a, m, q) = In-of_any p xs (ground arith) in (a, inr m, q)
  ]

  pub In-keep_of : (p : A → Bool) (a : A) (xs : List A) → In a xs → p a ≡ true → In a (keep p xs)
  In-keep_of p a [] m h = absurd m
  In-keep_of p a (x ∷ xs) (inl e) h = rw (sym (ap p e) ∙ h) (inl e)
  In-keep_of p a (x ∷ xs) (inr m) h = elim (Bool-cases (p x)) [
    | inl e ↦ rw e (inr (In-keep_of p a xs m h))
    | inr e ↦ rw e (In-keep_of p a xs m h)
  ]

module _ {B : Type 0} where
  pub append-eq-nil : (xs ys : List B) → (xs ++ ys) ≡ [] → (xs ≡ []) × (ys ≡ [])
  append-eq-nil [] ys h = (refl, h)
  append-eq-nil (x ∷ xs) ys h = cc

module _ {A B : Type 0} where
  -- A list of messages is empty exactly when no member has one.
  pub flat_map-eq-nil :
      (f : A → List B) (xs : List A) → flat_map f xs ≡ [] → (a : A) → In a xs → f a ≡ []
  flat_map-eq-nil f [] h a m = absurd m
  flat_map-eq-nil f (x ∷ xs) h a (inl e) = ap f e ∙ (append-eq-nil (f x) _ h).0
  flat_map-eq-nil f (x ∷ xs) h a (inr m) = flat_map-eq-nil f xs (append-eq-nil (f x) _ h).1 a m

  pub flat_map-eq-nil_of :
      (f : A → List B) (xs : List A) → ((a : A) → In a xs → f a ≡ []) → flat_map f xs ≡ []
  flat_map-eq-nil_of f [] h = refl
  flat_map-eq-nil_of f (x ∷ xs) h =
      rw (h x (inl refl)) (flat_map-eq-nil_of f xs (λ a m. h a (inr m)))

  pub In-map : (f : A → B) (a : A) (xs : List A) → In a xs → In (f a) (map f xs)
  In-map f a [] m = absurd m
  In-map f a (x ∷ xs) (inl e) = inl (ap f e)
  In-map f a (x ∷ xs) (inr m) = inr (In-map f a xs m)

  pub In-of_map :
      (f : A → B) (b : B) (xs : List A) → In b (map f xs) → (a : A) × In a xs × (b ≡ f a)
  In-of_map f b [] m = absurd m
  In-of_map f b (x ∷ xs) (inl e) = (x, inl refl, e)
  In-of_map f b (x ∷ xs) (inr m) = let (a, n, e) = In-of_map f b xs m in (a, inr n, e)

  pub In-flat_map :
      (f : A → List B) (a : A) (b : B) (xs : List A) → In a xs → In b (f a) → In b (flat_map f xs)
  In-flat_map f a b [] m n = absurd m
  In-flat_map f a b (x ∷ xs) (inl e) n =
      In-append_left b (f x) (flat_map f xs) (subst (λ y. In b (f y)) e n)
  In-flat_map f a b (x ∷ xs) (inr m) n =
      In-append_right b (f x) (flat_map f xs) (In-flat_map f a b xs m n)

  pub In-of_flat_map :
      (f : A → List B) (b : B) (xs : List A) → In b (flat_map f xs) → (a : A) × In a xs × In b (f a)
  In-of_flat_map f b [] m = absurd m
  In-of_flat_map f b (x ∷ xs) m = elim (In-append b (f x) (flat_map f xs) m) [
    | inl n ↦ (x, inl refl, n)
    | inr n ↦ let (a, r, q) = In-of_flat_map f b xs n in (a, inr r, q)
  ]
