-- ===== src/OsmEditor/References.antt =====
-- `collectIssues`, `checkReferences` and `nextTempId` of cmd/web/osm-editor.js: whether the drafts
-- refer to objects that are there.
pub mod Resolve
pub mod Placeholders
pub mod Intact
use osmmini.Base.{
  ℕ, Bool, true, false, ◌&&◌, ◌||◌, not, Option, none, some, List, [], ◌∷◌, ◌++◌, any, map,
  if◌then◌else◌, flat_map, ok, ◌>>=◌, traverse,
}
use osmmini.Base.Int.{ℤ, pos, negsuc, eqb_ℤ, leb_ℤ, min_ℤ, pred_ℤ}
use osmmini.Json.{Value}
use osmmini.OsmEditor.Problem.{Checked}
use osmmini.OsmEditor.Element.{
  Kind, node, way, kind_eq, positive, Member, Shape, at, along, joining, Element, type,
}
use osmmini.OsmEditor.Draft.{Draft, deletion, edit, described, validate_draft}

-- `d.deleted ? d.base : d.value`
abbrev pub subject : Draft → Element
subject (deletion b) = b
subject (edit b v c) = v

abbrev pub deleted : Draft → Bool
deleted (deletion b) = true
deleted (edit b v c) = false

-- An object's type and ID; the program joins the two by a slash.
abbrev pub Key : Type 0
Key = Kind × ℤ

abbrev pub key_eq : Key → Key → Bool
key_eq (k, i) (l, j) = kind_eq k l && eqb_ℤ i j

abbrev pub key : Element → Key
key e = (type e, e.id)

-- `known.get(key)`, the last draft of that key counting.
abbrev pub known : Key → List Draft → Option Bool
known k [] = none
known k (d ∷ ds) = elim (known k ds) [
  | some b ↦ some b
  | none ↦ if key_eq (key (subject d)) k then some (deleted d) else none
]

abbrev pub in_reach : Option Bool → ℤ → Bool
in_reach (some gone) i = not gone
in_reach none i = positive i

-- `exists`
unfoldable pub exists_in : List Draft → Key → Bool
exists_in ds k = in_reach (known k ds) k.1

pub data Issue : Type 0 where
  unknown_node : ℤ → ℤ → Issue
  unknown_member : ℤ → Key → Issue
  node_in_way : ℤ → ℤ → Issue
  member_in_relation : Key → ℤ → Issue
  stray_node : ℤ → Issue

-- What a shape refers to.
abbrev pub references : Shape → List Key
references (at lon lat) = []
references (along nodes) = map (λ i. (node, i)) nodes
references (joining members) = map (λ m. (m.type, m.ref)) members

abbrev pub unknown : Shape → ℤ → Key → Issue
unknown (joining ms) i k = unknown_member i k
unknown _ i k = unknown_node i k.1

pub unless : Bool → Issue → List Issue
unless true i = []
unless false i = i ∷ []

-- The first loop, for one draft.
reference_issues : List Draft → Draft → List Issue
unfolding unless exists_in
reference_issues all (deletion b) = []
reference_issues all (edit b v c) =
    flat_map (λ k. unless (exists_in all k) (unknown v.shape v.id k)) (references v.shape)

abbrev pub uses_node : Shape → ℤ → Bool
uses_node (along nodes) i = any (λ j. eqb_ℤ j i) nodes
uses_node _ i = false

abbrev pub uses_member : Shape → Key → Bool
uses_member (joining members) k = any (λ m. kind_eq m.type k.0 && eqb_ℤ m.ref k.1) members
uses_member _ k = false

-- The second loop, for one deleted object and one other draft.
use_issues : Element → Draft → List Issue
unfolding unless
use_issues e (deletion b) = []
use_issues e (edit b v c) =
    unless (not (kind_eq (type e) node && uses_node v.shape e.id)) (node_in_way e.id v.id)
    ++ unless (not (uses_member v.shape (key e))) (member_in_relation (key e) v.id)

deletion_issues : List Draft → Draft → List Issue
unfolding use_issues
deletion_issues all (deletion b) = flat_map (use_issues b) all
deletion_issues all (edit b v c) = []

uses : ℤ → Draft → Bool
uses i (deletion b) = false
uses i (edit b v c) = uses_node v.shape i || uses_member v.shape (node, i)

-- The third loop: a new node without a property has to be part of something.
stray_issues : List Draft → Draft → List Issue
unfolding unless uses
stray_issues all (edit none v c) =
    unless (not (kind_eq (type v) node) || (described v.tags || any (uses v.id) all))
      (stray_node v.id)
stray_issues all _ = []

unfoldable pub collect_issues : List Draft → List Issue
unfolding reference_issues deletion_issues stray_issues
collect_issues all =
    flat_map (reference_issues all) all
    ++ (flat_map (deletion_issues all) all ++ flat_map (stray_issues all) all)

unfoldable pub check_references : List Value → Checked (List Issue)
check_references raws = traverse validate_draft raws >>= λ ds. ok (collect_issues ds)

-- The IDs of the new objects of one type.
abbrev pub temp_ids : Kind → List Draft → List ℤ
temp_ids k [] = []
temp_ids k (deletion b ∷ ds) = temp_ids k ds
temp_ids k (edit b v c ∷ ds) =
    let rest = temp_ids k ds in
    if kind_eq (type v) k && not (leb_ℤ (pos 0) v.id) then v.id ∷ rest else rest

-- `Math.min(0, ...ids)`
abbrev pub least : List ℤ → ℤ
least [] = pos 0
least (i ∷ is) = min_ℤ i (least is)

unfoldable pub next_temp_id : Kind → List Draft → ℤ
next_temp_id k ds = pred_ℤ (least (temp_ids k ds))
