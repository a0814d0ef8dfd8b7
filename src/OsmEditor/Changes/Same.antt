-- ===== src/OsmEditor/Changes/Same.antt =====
-- When an edited object counts as unchanged.
use osmmini.Base.{
  ℕ, ==_iff, ◌∙◌, ◌≡◌, ◌↔◌, refl, sym, ap, ap₂, Bool, true, false, not, List, [], ◌∷◌, is_nil, Text,
  &&-eq-true,
}
use osmmini.Base.Int.{ℤ, eqb_ℤ, eqb_ℤ_iff}
use osmmini.Json.Numbers.{Number, whole, between, nan, infinite, number_eq, within}
use osmmini.OsmEditor.Element.{Shape, at, along, joining, kind, Element, type}
use osmmini.OsmEditor.Element.Valid.{IsShape}
use osmmini.OsmEditor.Changes.{
  get, changes, ids_eq, geometry_changed, shape_unchanged, element_unchanged,
}
use osmmini.OsmEditor.Changes.Dictionary.{changes-nil}
use osmmini.OsmEditor.Changes.Members
use osmmini.OsmEditor.Changes.Members.{member_changes-nil}

ids_eq_iff : (is js : List ℤ) → (ids_eq is js ≡ true) ↔ (is ≡ js)
ids_eq_iff is js = (to is js, λ e. rw e (self js))
  where
    to : (xs ys : List ℤ) → ids_eq xs ys ≡ true → xs ≡ ys
    to [] [] h = refl
    to [] (y ∷ ys) h = cc
    to (x ∷ xs) [] h = cc
    to (x ∷ xs) (y ∷ ys) h =
        let (p, q) = &&-eq-true (eqb_ℤ x y) _ h in ap₂ ◌∷◌ ((eqb_ℤ_iff x y).0 p) (to xs ys q)

    self : (xs : List ℤ) → ids_eq xs xs ≡ true
    self [] = refl
    self (x ∷ xs) = rw ((eqb_ℤ_iff x x).1 refl) (self xs)

number_eq→≡ : (a b : Number) → number_eq a b ≡ true → a ≡ b
number_eq→≡ (whole i) (whole j) h = ap whole ((eqb_ℤ_iff i j).0 h)
number_eq→≡ (between i f) (between j g) h =
    let (p, q) = &&-eq-true (eqb_ℤ i j) _ h in ap₂ between ((eqb_ℤ_iff i j).0 p) ((==_iff f g).0 q)
number_eq→≡ (infinite false) (infinite false) h = refl
number_eq→≡ (infinite true) (infinite true) h = refl
number_eq→≡ _ _ h = cc

-- A coordinate within a bound is finite, and so equal to itself.
number_eq_refl : (bound : ℕ) (a : Number) → within bound a ≡ true → number_eq a a ≡ true
number_eq_refl bound (whole i) h = (eqb_ℤ_iff i i).1 refl
number_eq_refl bound (between i f) h = rw ((eqb_ℤ_iff i i).1 refl) ((==_iff f f).1 refl)
number_eq_refl bound nan h = cc
number_eq_refl bound (infinite b) h = cc

-- The members of a relation are each of another object.
abbrev pub Simple : Shape → Type 0
Simple (joining ms) = Members.Distinct ms
Simple _ = Unit

is_nil_iff {ℓ} : {A : Type ℓ} (xs : List A) → (is_nil xs ≡ true) ↔ (xs ≡ [])
is_nil_iff [] = (λ _. refl, λ _. refl)
is_nil_iff (x ∷ xs) = (λ h. cc, λ h. cc)

not-not : (b : Bool) → not (not b) ≡ b
not-not true = refl
not-not false = refl

shape_unchanged→≡ : (s t : Shape) → kind s ≡ kind t → Simple t → shape_unchanged s t ≡ true → s ≡ t
unfolding shape_unchanged geometry_changed
shape_unchanged→≡ (at a b) (at c d) k m h =
    let (p, q) = &&-eq-true (number_eq b d) _ (sym (not-not _) ∙ h) in
    ap₂ at (number_eq→≡ a c q) (number_eq→≡ b d p)
shape_unchanged→≡ (along is) (along js) k m h =
    ap along ((ids_eq_iff is js).0 (sym (not-not _) ∙ h))
shape_unchanged→≡ (joining ms) (joining ns) k m h =
    ap joining ((member_changes-nil ms ns m).0 ((is_nil_iff _).0 h))
shape_unchanged→≡ _ _ k m h = cc

shape_unchanged_refl : (s : Shape) → IsShape s → Simple s → shape_unchanged s s ≡ true
unfolding shape_unchanged geometry_changed
shape_unchanged_refl (at a b) v m = rw (number_eq_refl 90 b v.1, number_eq_refl 180 a v.0) refl
shape_unchanged_refl (along is) v m = rw ((ids_eq_iff is is).1 refl) refl
shape_unchanged_refl (joining ms) v m = rw ((member_changes-nil ms ms m).1 refl) refl

-- A checked edited object, of the base's type and with no member twice, counts as unchanged exactly when
-- both dictionaries give every key the same value and position, nodes or members are the same.
pub element_unchanged_iff :
    (base value : Element)
    → type base ≡ type value
    → IsShape value.shape
    → Simple value.shape
    → (element_unchanged base value ≡ true)
      ↔ (((k : Text) → get k base.tags ≡ get k value.tags) × (base.shape ≡ value.shape))
unfolding element_unchanged
element_unchanged_iff base value k v s = (to, from)
  where
    to :
        element_unchanged base value ≡ true
        → ((k : Text) → get k base.tags ≡ get k value.tags) × (base.shape ≡ value.shape)
    to h =
        let (p, q) = &&-eq-true (is_nil (changes base.tags value.tags)) _ h in
        (
          (changes-nil base.tags value.tags).0 ((is_nil_iff _).0 p),
          shape_unchanged→≡ base.shape value.shape k s q,
        )

    from :
        ((k : Text) → get k base.tags ≡ get k value.tags) × (base.shape ≡ value.shape)
        → element_unchanged base value ≡ true
    from (p, q) =
        rw ((changes-nil base.tags value.tags).1 p, q) (shape_unchanged_refl value.shape v s)
