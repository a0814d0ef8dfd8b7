-- ===== src/OsmEditor/Draft/Valid.antt =====
-- What every draft that `validateDraft` returns satisfies.
use osmmini.Base.{
  ◌≡◌, ◌||◌, ◌&&◌, not, Bool, true, false, Option, none, some, codes, arith, Bool-cases, inl, inr,
  ok, Holds, Ensures, Ensures-eq, Ensures-of_eq, Ensures-bind,
}
use osmmini.Json.{Value, null, array, nil, cons, field}
use osmmini.Json.Numbers.{Number, within}
use osmmini.OsmEditor.Element.{node, kind_eq, Element, type, element}
use osmmini.OsmEditor.Element.Valid.{IsElement, element-IsElement, position-Holds}
use osmmini.OsmEditor.Draft.{
  Center, Draft, deletion, edit, both, view_center, described, same_identity, check_edit, present,
  or_null, is_true, base_of, deletion_of, is_none, edit_of, draft_of, validate_draft,
}

abbrev pub IsCenter : Option Center → Type 0
IsCenter = Holds (λ c. (within 180 c.0 ≡ true) × (within 90 c.1 ≡ true))

-- A change of an object keeps its type, ID and version; a new way or relation has a property.
abbrev pub IsDraft : Draft → Type 0
IsDraft (deletion b) = IsElement false b
IsDraft (edit (some b) v c) =
    IsElement false b × IsElement false v × (same_identity b v ≡ true) × IsCenter c
IsDraft (edit none v c) =
    IsElement true v × ((kind_eq (type v) node || described v.tags) ≡ true) × IsCenter c

both-IsCenter :
    (a b : Option Number)
    → Holds (λ n. within 180 n ≡ true) a
    → Holds (λ n. within 90 n ≡ true) b
    → IsCenter (both a b)
both-IsCenter none b p q = tt
both-IsCenter (some a) none p q = tt
both-IsCenter (some a) (some b) p q = (p, q)

view_center-IsCenter : (v : Option Value) → IsCenter (view_center v)
unfolding view_center
view_center-IsCenter (some (array (cons a (cons b nil)))) =
    both-IsCenter _ _ (position-Holds (some a) 180) (position-Holds (some b) 90)
view_center-IsCenter none = tt
view_center-IsCenter (some _) = tt

element-Ensures : (create : Bool) (raw : Value) → Ensures (IsElement create) (element create raw)
element-Ensures create raw =
    Ensures-of_eq _ (element create raw) (λ e. element-IsElement create raw)

check_edit-IsDraft :
    (b : Option Element) (v : Element) (c : Option Center)
    → Holds (IsElement false) b
    → IsElement (is_none b) v
    → IsCenter c
    → Ensures IsDraft (check_edit b v c)
unfolding check_edit
check_edit-IsDraft (some b) v c hb hv hc = elim (Bool-cases (same_identity b v)) [
  | inl e ↦ rw e (hb, hv, e, hc)
  | inr e ↦ rw e tt
]
check_edit-IsDraft none v c hb hv hc =
    elim (Bool-cases (not (kind_eq (type v) node) && not (described v.tags))) [
      | inl e ↦ rw e tt
      | inr e ↦ rw e (hv, ground arith, hc)
    ]

base_of-IsElement : (o : Option Value) → Ensures (Holds (IsElement false)) (base_of o)
unfolding base_of
base_of-IsElement none = tt
base_of-IsElement (some raw) =
    Ensures-bind _ _ (element false raw) _ (element-Ensures false raw) (λ b h. h)

deletion_of-IsDraft : (o : Option Value) → Ensures IsDraft (deletion_of o)
unfolding deletion_of
deletion_of-IsDraft none = tt
deletion_of-IsDraft (some raw) =
    Ensures-bind _ _ (element false raw) _ (element-Ensures false raw) (λ b h. h)

edit_of-IsDraft : (d : Value) → Ensures IsDraft (edit_of d)
unfolding edit_of
edit_of-IsDraft d =
    Ensures-bind _ _ (base_of (present (field (codes "base") d))) _ (base_of-IsElement _) λ b hb.
      Ensures-bind _ _ (element (is_none b) (or_null (field (codes "value") d))) _
        (element-Ensures _ _)
        λ v hv. check_edit-IsDraft b v _ hb hv (view_center-IsCenter (field (codes "center") d))

draft_of-IsDraft : (d : Value) → Ensures IsDraft (draft_of d)
unfolding draft_of
draft_of-IsDraft d = elim (Bool-cases (is_true (field (codes "deleted") d))) [
  | inl e ↦ rw e (deletion_of-IsDraft _)
  | inr e ↦ rw e (edit_of-IsDraft d)
]

pub validate_draft-Ensures : (d : Value) → Ensures IsDraft (validate_draft d)
unfolding validate_draft
validate_draft-Ensures null = tt
validate_draft-Ensures d = draft_of-IsDraft d

-- What `validateDraft` returns is a deletion of a saved object, a change that keeps type, ID and
-- version, or a new object with a placeholder that, unless it is a node, has a property; its parts
-- are checked objects, and a kept map position is within the bounds.
pub validate_draft-IsDraft : (raw : Value) {d : Draft} → validate_draft raw ≡ ok d → IsDraft d
validate_draft-IsDraft raw = Ensures-eq IsDraft (validate_draft raw) (validate_draft-Ensures raw)
