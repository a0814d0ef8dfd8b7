-- ===== src/OsmEditor/Draft/Encode.antt =====
-- A draft as `JSON.stringify` writes it and `JSON.parse` reads it back.
use osmmini.Base.{Holds, ◌≡◌, refl, true, false, Option, none, some, codes, arith, ok}
use osmmini.Json.{
  Value, null, boolean, number, object, array, nil, cons, Fields, end, property, field,
}
use osmmini.OsmEditor.Element.{Element}
use osmmini.OsmEditor.Element.Valid.{IsElement}
use osmmini.OsmEditor.Element.Encode.{to_value, element-to_value}
use osmmini.OsmEditor.Draft.{
  Center, Draft, deletion, edit, view_center, check_edit, present, is_true, base_of, deletion_of,
  is_none, edit_of, draft_of, validate_draft,
}
use osmmini.OsmEditor.Draft.Valid.{IsCenter, IsDraft}

abbrev base_value : Option Element → Value
base_value none = null
base_value (some b) = to_value b

abbrev center_field : Option Center → Fields
center_field none = end
center_field (some (a, b)) =
    property (codes "center") (array (cons (number a) (cons (number b) nil))) end

abbrev edit_value : Value → Value → Option Center → Value
edit_value b v c = object (property (codes "base") b (property (codes "value") v (center_field c)))

unfoldable pub draft_value : Draft → Value
draft_value (deletion b) =
    object (property (codes "base") (to_value b) (property (codes "deleted") (boolean true) end))
draft_value (edit b v c) = edit_value (base_value b) (to_value v) c

view_center-edit_value :
    (b v : Value) (c : Option Center)
    → IsCenter c
    → view_center (field (codes "center") (edit_value b v c)) ≡ c
unfolding view_center
view_center-edit_value b v none h = refl
view_center-edit_value b v (some (x, y)) h = rw (h.0, h.1) refl

not_deleted :
    (b v : Value) (c : Option Center) → is_true (field (codes "deleted") (edit_value b v c)) ≡ false
not_deleted b v none = refl
not_deleted b v (some (x, y)) = refl

present-to_value : (e : Element) → present (some (to_value e)) ≡ some (to_value e)
unfolding to_value
present-to_value e = refl

base_of-base_value :
    (b : Option Element)
    → Holds (IsElement false) b
    → base_of (present (some (base_value b))) ≡ ok b
unfolding base_of
base_of-base_value none h = refl
base_of-base_value (some b) h = rw (present-to_value b, element-to_value false b h) refl

edit_of-edit_value :
    (b : Option Element) (v : Element) (c : Option Center)
    → Holds (IsElement false) b
    → IsElement (is_none b) v
    → IsCenter c
    → edit_of (edit_value (base_value b) (to_value v) c) ≡ check_edit b v c
unfolding edit_of
edit_of-edit_value b v c hb hv hc =
    rw
      (
        base_of-base_value b hb,
        element-to_value (is_none b) v hv,
        view_center-edit_value (base_value b) (to_value v) c hc,
      )
      refl

draft_of-edit :
    (b : Option Element) (v : Element) (c : Option Center)
    → IsDraft (edit b v c)
    → draft_of (edit_value (base_value b) (to_value v) c) ≡ ok (edit b v c)
unfolding draft_of check_edit
draft_of-edit none v c (hv, hd, hc) =
    rw (not_deleted (base_value none) (to_value v) c, edit_of-edit_value none v c tt hv hc)
      (ground arith)
draft_of-edit (some b) v c (hb, hv, hs, hc) =
    rw
      (
        not_deleted (base_value (some b)) (to_value v) c,
        edit_of-edit_value (some b) v c hb hv hc,
        hs,
      )
      refl

draft_of-deletion :
    (b : Element) → IsElement false b → draft_of (draft_value (deletion b)) ≡ ok (deletion b)
unfolding draft_of deletion_of draft_value
draft_of-deletion b h = rw (present-to_value b, element-to_value false b h) refl

-- Validating a draft that was written and read back gives the same draft, for every draft that
-- validation can have returned.
pub validate_draft-draft_value : (d : Draft) → IsDraft d → validate_draft (draft_value d) ≡ ok d
unfolding validate_draft draft_value
validate_draft-draft_value (deletion b) h = draft_of-deletion b h
validate_draft-draft_value (edit none v c) h = draft_of-edit none v c h
validate_draft-draft_value (edit (some b) v c) h = draft_of-edit (some b) v c h
