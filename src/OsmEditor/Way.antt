-- ===== src/OsmEditor/Way.antt =====
-- Splitting a way of cmd/web/osm-editor.js at a node, and joining two ways: `performSplit`,
-- `patchRelationsForSplit`, and the node list that `mergeWith` makes.
pub mod Split
pub mod Limit
pub mod Merge
mod Tests
use osmmini.Base.{
  ℕ, zero, suc, ◌+◌, ◌-◌, Bool, true, false, not, Option, none, some, List, [], ◌∷◌, ◌++◌, map,
  take, drop, length, leb, if◌then◌else◌, is_nil, ok, err, ◌>>=◌, ◌>>◌, traverse,
}
use osmmini.Base.Int.{ℤ, eqb_ℤ}
use osmmini.Json.{Value}
use osmmini.OsmEditor.Problem.{Checked, unresolved, not_inner, not_adjacent}
use osmmini.OsmEditor.Element.{
  Kind, way, kind_eq, Member, Shape, at, along, joining, Element, element,
}
use osmmini.OsmEditor.Element.Encode.{to_value}
use osmmini.OsmEditor.Draft.{Center, Draft, deletion, edit, validate_draft}
use osmmini.OsmEditor.Draft.Encode.{draft_value}
use osmmini.OsmEditor.References.{subject, key_eq, key, check_references, next_temp_id}

-- `indexOf`
abbrev pub one_more : Option ℕ → Option ℕ
one_more none = none
one_more (some k) = some (suc k)

abbrev pub index_of : ℤ → List ℤ → Option ℕ
index_of n [] = none
index_of n (i ∷ is) = let rest = index_of n is in if eqb_ℤ i n then some 0 else one_more rest

-- The nodes up to an inner node, and from it on.
abbrev pub split_from : Option ℕ → List ℤ → Checked (List ℤ × List ℤ)
split_from none nodes = err not_inner
split_from (some zero) nodes = err not_inner
split_from (some (suc k)) nodes =
    if leb (length nodes - 1) (suc k)
    then err not_inner
    else ok (take (suc (suc k)) nodes, drop (suc k) nodes)

unfoldable pub split_nodes : ℤ → List ℤ → Checked (List ℤ × List ℤ)
split_nodes n nodes = split_from (index_of n nodes) nodes

-- `a.at(-1)`, `a[0]`, `a.slice(1)`, `a.slice(0,-1)` and `reverse`.
abbrev pub last : List ℤ → Option ℤ
last [] = none
last (i ∷ []) = some i
last (i ∷ j ∷ is) = last (j ∷ is)

abbrev pub first : List ℤ → Option ℤ
first [] = none
first (i ∷ is) = some i

abbrev pub rest_of : List ℤ → List ℤ
rest_of [] = []
rest_of (i ∷ is) = is

abbrev pub without_last : List ℤ → List ℤ
without_last [] = []
without_last (i ∷ []) = []
without_last (i ∷ j ∷ is) = i ∷ without_last (j ∷ is)

abbrev pub reverse : List ℤ → List ℤ
reverse [] = []
reverse (i ∷ is) = reverse is ++ i ∷ []

abbrev pub id_eq : Option ℤ → Option ℤ → Bool
id_eq none none = true
id_eq (some i) (some j) = eqb_ℤ i j
id_eq _ _ = false

-- The list of `mergeWith`, of the open way and another one.
unfoldable pub merge_nodes : List ℤ → List ℤ → Checked (List ℤ)
merge_nodes a b =
    if id_eq (last a) (first b)
    then ok (a ++ rest_of b)
    else if id_eq (last a) (last b)
    then ok (a ++ reverse (without_last b))
    else if id_eq (first a) (last b)
    then ok (b ++ rest_of a)
    else if id_eq (first a) (first b)
    then ok (reverse b ++ rest_of a)
    else err not_adjacent

-- The draft of the same object is replaced, or the draft is added.
pub put_draft : Draft → List Draft → List Draft
put_draft d [] = d ∷ []
put_draft d (e ∷ ds) =
    let rest = put_draft d ds in
    if key_eq (key (subject e)) (key (subject d)) then d ∷ ds else e ∷ rest

-- The new segment behind the split way, with its role; a relation that does not hold it stays.
abbrev pub insert_segment : ℤ → ℤ → List Member → Option (List Member)
insert_segment old new [] = none
insert_segment old new (m ∷ ms) =
    let rest = insert_segment old new ms in
    if is_way m
    then some (m ∷ record { type = way; ref = new; role = m.role } ∷ ms)
    else before rest
  where
    is_way : Member → Bool
    is_way m = if kind_eq m.type way then eqb_ℤ m.ref old else false

    before : Option (List Member) → Option (List Member)
    before none = none
    before (some l) = some (m ∷ l)

patch_members : Draft → Option (List Member) → Checked Draft
patch_members (edit b v c) (some ms) =
    validate_draft (draft_value (edit b (record v { shape = joining ms }) c))
patch_members d _ = ok d

pub patch_for_split : ℤ → ℤ → Draft → Checked Draft
unfolding patch_members
patch_for_split old new (deletion b) = ok (deletion b)
patch_for_split old new (edit b v c) = patch_shape v.shape
  where
    patch_shape : Shape → Checked Draft
    patch_shape (joining ms) = patch_members (edit b v c) (insert_segment old new ms)
    patch_shape _ = ok (edit b v c)

-- `patchRelationsForSplit`
pub patch_relations_for_split : ℤ → ℤ → List Draft → Checked (List Draft)
unfolding patch_for_split
patch_relations_for_split old new ds = traverse (patch_for_split old new) ds

-- `performSplit`, on an open way of the server: its base, its value and its place on the map.
pub split_drafts :
    List Draft → Element → Element → Option Center → List ℤ × List ℤ → Checked (List Draft)
unfolding put_draft patch_relations_for_split
split_drafts ds base value center (head, tail) = do
  second ← element true (
      to_value (record {
        id = next_temp_id way ds;
        version = none;
        tags = value.tags;
        shape = along tail;
      }))
  one ← validate_draft (draft_value (edit (some base) (record value { shape = along head }) center))
  two ← validate_draft (draft_value (edit none second center))
  next ← patch_relations_for_split value.id second.id (put_draft one ds ++ two ∷ [])
  issues ← check_references (map draft_value next)
  if is_nil issues then ok next else err unresolved

abbrev pub nodes_of_shape : Shape → List ℤ
nodes_of_shape (along nodes) = nodes
nodes_of_shape _ = []

unfoldable pub perform_split :
    ℤ → List Draft → Element → Element → Option Center → Checked (List Draft)
unfolding split_drafts
perform_split n ds base value center =
    split_nodes n (nodes_of_shape value.shape) >>= split_drafts ds base value center
