-- ===== src/OsmEditor/Draft.antt =====
-- `validateDraft` and `viewCenter` of cmd/web/osm-editor.js: one draft of the working set.
pub mod Valid
pub mod Encode
use osmmini.Base.{
  is_space, ℕ, Bool, true, false, ◌&&◌, ◌||◌, not, Option, none, some, List, [], ◌∷◌, Text, codes,
  all, any, leb, ◌==◌, if◌then◌else◌, ok, err, ◌>>=◌,
}
use osmmini.Base.Int.{ℤ, eqb_ℤ}
use osmmini.Json.{Value, null, boolean, array, Items, nil, cons, field, truthy}
use osmmini.Json.Numbers.{Number}
use osmmini.OsmEditor.Problem.{Checked, delete_unsaved, identity_changed, no_property, type_error}
use osmmini.OsmEditor.Tags.{Tags}
use osmmini.OsmEditor.Element.{Kind, node, kind_eq, Element, type, position, element}

abbrev pub Center : Type 0
Center = Number × Number

-- `{base, deleted: true}`, and `{base, value, center?}` with `null` for the base of a new object.
pub data Draft : Type 0 where
  deletion : Element → Draft
  edit : Option Element → Element → Option Center → Draft

abbrev both : Option Number → Option Number → Option Center
both (some a) (some b) = some (a, b)
both _ _ = none

unfoldable pub view_center : Option Value → Option Center
view_center (some (array (cons a (cons b nil)))) =
    both (position (some a) 180) (position (some b) 90)
view_center _ = none

-- `!v.trim()`
unfoldable pub blank : Text → Bool
blank v = all is_space v

-- `Object.values(tags).some(v => v.trim())`
abbrev pub described : Tags → Bool
described [] = false
described ((k, v) ∷ rest) = not (blank v) || described rest

abbrev pub version_eq : Option ℤ → Option ℤ → Bool
version_eq none none = true
version_eq (some m) (some n) = eqb_ℤ m n
version_eq _ _ = false

abbrev pub same_identity : Element → Element → Bool
same_identity b v = kind_eq (type b) (type v) && (eqb_ℤ b.id v.id && version_eq b.version v.version)

-- The two conditions at the end of `validateDraft`.
unfoldable pub check_edit : Option Element → Element → Option Center → Checked Draft
check_edit (some b) v c = if same_identity b v then ok (edit (some b) v c) else err identity_changed
check_edit none v c =
    if not (kind_eq (type v) node) && not (described v.tags)
    then err no_property
    else ok (edit none v c)

-- A property that is `undefined`, where `element` refuses it just as it refuses `null`.
abbrev or_null : Option Value → Value
or_null none = null
or_null (some v) = v

abbrev present : Option Value → Option Value
present none = none
present (some v) = if truthy v then some v else none

abbrev is_true : Option Value → Bool
is_true (some (boolean b)) = b
is_true _ = false

base_of : Option Value → Checked (Option Element)
base_of none = ok none
base_of (some raw) = element false raw >>= λ b. ok (some b)

deletion_of : Option Value → Checked Draft
deletion_of none = err delete_unsaved
deletion_of (some raw) = element false raw >>= λ b. ok (deletion b)

abbrev is_none {ℓ} : {A : Type ℓ} → Option A → Bool
is_none none = true
is_none (some _) = false

edit_of : Value → Checked Draft
unfolding base_of
edit_of d = do
  b ← base_of (present (field (codes "base") d))
  v ← element (is_none b) (or_null (field (codes "value") d))
  check_edit b v (view_center (field (codes "center") d))

draft_of : Value → Checked Draft
unfolding deletion_of edit_of
draft_of d =
    if is_true (field (codes "deleted") d)
    then deletion_of (present (field (codes "base") d))
    else edit_of d

-- Reading a property of `null` throws.
unfoldable pub validate_draft : Value → Checked Draft
unfolding draft_of
validate_draft null = err type_error
validate_draft d = draft_of d
