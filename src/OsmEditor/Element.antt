-- ===== src/OsmEditor/Element.antt =====
-- `member` and `element` of cmd/web/osm-editor.js: an object of the OSM API, of a backup or of the
-- editor itself, checked and copied field by field. The `type` of an object is text or missing.
pub mod Valid
pub mod Encode
use osmmini.Base.{
  ℕ, ◌+◌, Bool, true, false, ◌&&◌, ◌||◌, not, Option, none, some, List, [], ◌∷◌, Text, codes,
  text_eq, length, leb, ltb, if◌then◌else◌, ok, err, ◌>>=◌, ◌>>◌, traverse,
}
use osmmini.Base.Int.{ℤ, pos, negsuc}
use osmmini.Json.{Value, boolean, number, string, array, object, field, entries, items, truthy}
use osmmini.Json.Numbers.{Number, within, safe_integer}
use osmmini.OsmEditor.Problem.{
  Checked, invalid_member, invalid_role, invalid_object, invalid_tags, invalid_position,
  incomplete_way, no_member_list, too_many_members,
}
use osmmini.OsmEditor.Tags.{Tags, xml_text, tags}

-- The keys of `TYPE_RANK`.
pub data Kind : Type 0 where
  node way relation : Kind

unfoldable pub rank : Kind → ℕ
rank node = 0
rank way = 1
rank relation = 2

abbrev pub kind_eq : Kind → Kind → Bool
kind_eq node node = true
kind_eq way way = true
kind_eq relation relation = true
kind_eq _ _ = false

abbrev pub word : Kind → Text
word node = codes "node"
word way = codes "way"
word relation = codes "relation"

-- `Object.hasOwn(TYPE_RANK, type)`
unfoldable pub kind_of : Option Value → Option Kind
kind_of (some (string t)) =
    if text_eq t (word node)
    then some node
    else if text_eq t (word way)
    then some way
    else if text_eq t (word relation)
    then some relation
    else none
kind_of _ = none

abbrev integer_of : Option Value → Option ℤ
integer_of (some (number n)) = safe_integer n
integer_of _ = none

abbrev pub positive : ℤ → Bool
positive (pos n) = ltb 0 n
positive (negsuc n) = false

abbrev pub nonzero : ℤ → Bool
nonzero (pos n) = ltb 0 n
nonzero (negsuc n) = true

abbrev pub negative : ℤ → Bool
negative (pos n) = false
negative (negsuc n) = true

abbrev pub only : (ℤ → Bool) → Option ℤ → Option ℤ
only p none = none
only p (some i) = if p i then some i else none

-- `validID` and `refID`, with the integer that passed.
unfoldable pub valid_id : Option Value → Option ℤ
valid_id v = only positive (integer_of v)

unfoldable pub ref_id : Option Value → Option ℤ
ref_id v = only nonzero (integer_of v)

unfoldable pub placeholder : Option Value → Option ℤ
placeholder v = only negative (integer_of v)

pub record Member : Type 0 where
  pub type : Kind
  pub ref : ℤ
  pub role : Text

-- `raw.role || ''`
abbrev role_text : Option Value → Option Text
role_text none = some []
role_text (some (string t)) = some t
role_text (some v) = if truthy v then none else some []

abbrev pub role_allowed : Text → Bool
role_allowed t = leb (length t) 255 && xml_text t

check_role : Kind → ℤ → Option Text → Checked Member
check_role k i none = err invalid_role
check_role k i (some t) =
    if role_allowed t then ok (record { type = k; ref = i; role = t }) else err invalid_role

check_member : Option Kind → Option ℤ → Option Text → Checked Member
check_member (some k) (some i) role = check_role k i role
check_member _ _ role = err invalid_member

unfoldable pub member : Value → Checked Member
unfolding check_role check_member kind_of ref_id
member raw =
    check_member (kind_of (field (codes "type") raw)) (ref_id (field (codes "ref") raw))
      (role_text (field (codes "role") raw))

-- The fields that depend on the type.
pub data Shape : Type 0 where
  at : Number → Number → Shape
  along : List ℤ → Shape
  joining : List Member → Shape

abbrev pub kind : Shape → Kind
kind (at lon lat) = node
kind (along nodes) = way
kind (joining members) = relation

-- A new object has no version.
pub record Element : Type 0 where
  pub id : ℤ
  pub version : Option ℤ
  pub tags : Tags
  pub shape : Shape

abbrev pub type : Element → Kind
type e = kind e.shape

abbrev pub position : Option Value → ℕ → Option Number
position (some (number n)) bound = if within bound n then some n else none
position _ bound = none

check_position : Option Number → Option Number → Checked Shape
check_position (some lon) (some lat) = ok (at lon lat)
check_position _ _ = err invalid_position

-- `raw.nodes.every(refID)`
abbrev pub cons_both {ℓ} : {A : Type ℓ} → Option A → Option (List A) → Option (List A)
cons_both (some a) (some rest) = some (a ∷ rest)
cons_both _ _ = none

abbrev pub refs : List Value → Option (List ℤ)
refs [] = some []
refs (v ∷ vs) = cons_both (ref_id (some v)) (refs vs)

check_nodes : Option (List ℤ) → Checked Shape
check_nodes none = err incomplete_way
check_nodes (some is) =
    if ltb (length is) 2 || ltb 2000 (length is) then err incomplete_way else ok (along is)

nodes_of : Option Value → Option (List ℤ)
nodes_of (some (array vs)) = refs (items vs)
nodes_of _ = none

members_of : Option Value → Checked Shape
members_of (some (array vs)) =
    if ltb 300 (length (items vs))
    then err too_many_members
    else traverse member (items vs) >>= λ ms. ok (joining ms)
members_of _ = err no_member_list

shape_of : Kind → Value → Checked Shape
unfolding check_position check_nodes nodes_of members_of
shape_of node raw =
    check_position (position (field (codes "lon") raw) 180) (position (field (codes "lat") raw) 90)
shape_of way raw = check_nodes (nodes_of (field (codes "nodes") raw))
shape_of relation raw = members_of (field (codes "members") raw)

record Identity : Type 0 where
  sort : Kind
  key : ℤ
  release : Option ℤ

identity_from : Option Kind → Option ℤ → Checked (Option ℤ) → Bool → Checked Identity
identity_from (some k) (some i) (ok v) false = ok (record { sort = k; key = i; release = v })
identity_from _ _ _ _ = err invalid_object

abbrev required : Option ℤ → Checked (Option ℤ)
required none = err invalid_object
required (some n) = ok (some n)

abbrev version_of : Bool → Option Value → Checked (Option ℤ)
version_of true v = ok none
version_of false v = required (valid_id v)

abbrev hidden : Option Value → Bool
hidden (some (boolean false)) = true
hidden _ = false

-- The first condition of `element`: type, ID, version and `visible`.
identity : Bool → Value → Checked Identity
unfolding identity_from kind_of valid_id placeholder
identity create raw =
    identity_from (kind_of (field (codes "type") raw))
      (if create then placeholder (field (codes "id") raw) else valid_id (field (codes "id") raw))
      (version_of create (field (codes "version") raw)) (hidden (field (codes "visible") raw))

tags_of : Option Value → Checked (List (Text × Value))
tags_of none = ok []
tags_of (some (object fs)) = ok (entries fs)
tags_of (some v) = err invalid_tags

unfoldable pub element : Bool → Value → Checked Element
unfolding identity tags_of shape_of
element create raw = do
  who ← identity create raw
  es ← tags_of (field (codes "tags") raw)
  ts ← tags es
  s ← shape_of who.sort raw
  ok (record { id = who.key; version = who.release; tags = ts; shape = s })
