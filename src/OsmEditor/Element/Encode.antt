-- ===== src/OsmEditor/Element/Encode.antt =====
-- An object as `JSON.stringify` writes it and `JSON.parse` reads it back. The texts between them
-- are the platform's, so the value stands for them.
use osmmini.Base.{
  length-map, ◌≡◌, refl, Bool, true, false, Option, none, some, List, [], ◌∷◌, map, Text, codes,
  arith, All, ok, traverse-map,
}
use osmmini.Base.Int.{ℤ}
use osmmini.Json.{
  Value, number, string, array, object, Fields, end, property, to_items, to_fields, items, entries,
  field,
}
use osmmini.Json.Numbers.{whole}
use osmmini.OsmEditor.Tags.{Tags}
use osmmini.OsmEditor.Tags.Valid.{tag_entries, tags-tag_entries}
use osmmini.OsmEditor.Element.{
  Kind, node, way, relation, word, positive, nonzero, negative, kind_of, valid_id, ref_id,
  placeholder, Member, check_member, check_role, member, Shape, at, along, joining, kind, Element,
  refs, check_position, check_nodes, nodes_of, members_of, shape_of, identity_from, identity,
  tags_of, element,
}
use osmmini.OsmEditor.Element.Valid.{Numbered, IsMember, IsShape, IsIdentified, IsElement}

abbrev integer : ℤ → Value
integer i = number (whole i)

unfoldable pub member_value : Member → Value
member_value m = object (
    property (codes "type") (string (word m.type))
      (property (codes "ref") (integer m.ref) (property (codes "role") (string m.role) end)))

abbrev shape_fields : Shape → Fields
shape_fields (at lon lat) =
    property (codes "lon") (number lon) (property (codes "lat") (number lat) end)
shape_fields (along is) = property (codes "nodes") (array (to_items (map integer is))) end
shape_fields (joining ms) = property (codes "members") (array (to_items (map member_value ms))) end

abbrev with_version : Option ℤ → Fields → Fields
with_version none rest = rest
with_version (some n) rest = property (codes "version") (integer n) rest

abbrev value_of : ℤ → Option ℤ → Tags → Shape → Value
value_of i v ts s = object (
    property (codes "type") (string (word (kind s))) (
      property (codes "id") (integer i) (
        with_version v
          (property (codes "tags") (object (to_fields (tag_entries ts))) (shape_fields s)))))

unfoldable pub to_value : Element → Value
unfolding member_value
to_value e = value_of e.id e.version e.tags e.shape

pub items-to_items : (vs : List Value) → items (to_items vs) ≡ vs
items-to_items [] = refl
items-to_items (v ∷ vs) = rw (items-to_items vs)

entries-to_fields : (es : List (Text × Value)) → entries (to_fields es) ≡ es
entries-to_fields [] = refl
entries-to_fields ((k, v) ∷ es) = rw (entries-to_fields es)

kind_of-word : (k : Kind) → kind_of (some (string (word k))) ≡ some k
unfolding kind_of
kind_of-word node = refl
kind_of-word way = refl
kind_of-word relation = refl

module _ {i : ℤ} where
  ref_id-integer : Numbered nonzero i → ref_id (some (integer i)) ≡ some i
  unfolding ref_id
  ref_id-integer h = ground arith

  valid_id-integer : Numbered positive i → valid_id (some (integer i)) ≡ some i
  unfolding valid_id
  valid_id-integer h = ground arith

  placeholder-integer : Numbered negative i → placeholder (some (integer i)) ≡ some i
  unfolding placeholder
  placeholder-integer h = ground arith

member-member_value : (m : Member) → IsMember m → member (member_value m) ≡ ok m
unfolding member member_value check_member check_role
member-member_value m h = rw (kind_of-word m.type, ref_id-integer h.0, h.1) refl

refs-integers : (is : List ℤ) → All (Numbered nonzero) is → refs (map integer is) ≡ some is
refs-integers [] h = refl
refs-integers (i ∷ is) h = rw (ref_id-integer h.0, refs-integers is h.1) refl

identity-value_of :
    (create : Bool) (i : ℤ) (v : Option ℤ) (ts : Tags) (s : Shape)
    → IsIdentified create i v
    → identity create (value_of i v ts s) ≡ ok (record { sort = kind s; key = i; release = v })
unfolding identity identity_from
identity-value_of true i none ts (at a b) h = rw (kind_of-word node, placeholder-integer h) refl
identity-value_of true i none ts (along n) h = rw (kind_of-word way, placeholder-integer h) refl
identity-value_of true i none ts (joining m) h =
    rw (kind_of-word relation, placeholder-integer h) refl
identity-value_of true i (some n) ts s h = absurd h
identity-value_of false i none ts s h = absurd h
identity-value_of false i (some n) ts (at a b) h =
    rw (kind_of-word node, valid_id-integer h.0, valid_id-integer h.1) refl
identity-value_of false i (some n) ts (along is) h =
    rw (kind_of-word way, valid_id-integer h.0, valid_id-integer h.1) refl
identity-value_of false i (some n) ts (joining m) h =
    rw (kind_of-word relation, valid_id-integer h.0, valid_id-integer h.1) refl

check_nodes-integers :
    (is : List ℤ)
    → IsShape (along is)
    → check_nodes (refs (items (to_items (map integer is)))) ≡ ok (along is)
unfolding check_nodes
check_nodes-integers is h =
    rw (items-to_items (map integer is), refs-integers is h.0) (ground arith)

members_of-values :
    (ms : List Member)
    → IsShape (joining ms)
    → members_of (some (array (to_items (map member_value ms)))) ≡ ok (joining ms)
unfolding members_of
members_of-values ms h =
    rw
      (
        items-to_items (map member_value ms),
        traverse-map IsMember member member_value member-member_value ms h.0,
        length-map member_value ms,
      )
      (ground arith)

shape_of-value_of :
    (i : ℤ) (v : Option ℤ) (ts : Tags) (s : Shape)
    → IsShape s
    → shape_of (kind s) (value_of i v ts s) ≡ ok s
unfolding shape_of check_position nodes_of
shape_of-value_of i none ts (at a b) h = rw (h.0, h.1) refl
shape_of-value_of i (some n) ts (at a b) h = rw (h.0, h.1) refl
shape_of-value_of i none ts (along is) h = check_nodes-integers is h
shape_of-value_of i (some n) ts (along is) h = check_nodes-integers is h
shape_of-value_of i none ts (joining ms) h = members_of-values ms h
shape_of-value_of i (some n) ts (joining ms) h = members_of-values ms h

tags_of-value_of :
    (i : ℤ) (v : Option ℤ) (ts : Tags) (s : Shape)
    → tags_of (field (codes "tags") (value_of i v ts s)) ≡ ok (tag_entries ts)
unfolding tags_of
tags_of-value_of i none ts s = rw entries-to_fields refl
tags_of-value_of i (some n) ts s = rw entries-to_fields refl

-- Reading back what was written gives the object again, field for field, for every object that
-- `element` can have returned.
pub element-to_value :
    (create : Bool) (e : Element) → IsElement create e → element create (to_value e) ≡ ok e
unfolding element to_value
element-to_value create e h =
    rw
      (
        identity-value_of create e.id e.version e.tags e.shape h.identified,
        tags_of-value_of e.id e.version e.tags e.shape,
        tags-tag_entries e.tags h.tagged,
        shape_of-value_of e.id e.version e.tags e.shape h.shaped,
      )
      refl
