-- ===== src/OsmEditor/Changes.antt =====
-- `changes`, `geometryChange`, `memberChanges` and `elementUnchanged` of cmd/web/osm-editor.js:
-- how an edited object differs from its base, which has the same type (`validateDraft`).
pub mod Dictionary
pub mod Members
pub mod Same
use osmmini.Base.{
  optional_eq, ℕ, Bool, true, false, ◌&&◌, ◌||◌, not, Option, none, some, List, [], ◌∷◌, ◌++◌, map,
  any, Text, text_eq, text_lt, if◌then◌else◌, flat_map, is_nil,
}
use osmmini.Base.Int.{ℤ, eqb_ℤ}
use osmmini.Json.Numbers.{Number, number_eq}
use osmmini.OsmEditor.Tags.{Tags}
use osmmini.OsmEditor.Element.{Kind, kind_eq, Member, Shape, at, along, joining, Element}

-- `tags[k]`
abbrev pub get : Text → Tags → Option Text
get k [] = none
get k ((j, v) ∷ rest) = if text_eq j k then some v else get k rest

abbrev pub keys : Tags → List Text
keys [] = []
keys ((k, v) ∷ rest) = k ∷ keys rest

abbrev pub contains : Text → List Text → Bool
contains k ks = any (λ j. text_eq j k) ks

-- The members of a `Set`, in the order of their first insertion.
abbrev pub into_set : List Text → List Text → List Text
into_set seen [] = seen
into_set seen (k ∷ ks) = into_set (if contains k seen then seen else seen ++ k ∷ []) ks

-- `Array.prototype.sort`
abbrev pub insert_key : Text → List Text → List Text
insert_key k [] = k ∷ []
insert_key k (j ∷ js) = let rest = insert_key k js in if text_lt j k then j ∷ rest else k ∷ j ∷ js

abbrev pub sort_keys : List Text → List Text
sort_keys [] = []
sort_keys (k ∷ ks) = insert_key k (sort_keys ks)

pub record TagChange : Type 0 where
  pub name : Text
  pub before : Option Text
  pub after : Option Text

abbrev pub tag_change : Tags → Tags → Text → List TagChange
tag_change before after k =
    if optional_eq (get k before) (get k after)
    then []
    else record { name = k; before = get k before; after = get k after } ∷ []

unfoldable pub changes : Tags → Tags → List TagChange
changes before after =
    flat_map (tag_change before after) (sort_keys (into_set [] (keys before ++ keys after)))

-- `JSON.stringify(a) === JSON.stringify(b)` on lists of integers.
abbrev pub ids_eq : List ℤ → List ℤ → Bool
ids_eq [] [] = true
ids_eq (i ∷ is) (j ∷ js) = eqb_ℤ i j && ids_eq is js
ids_eq _ _ = false

-- Whether `geometryChange` reports a change; its texts are for the screen only.
unfoldable pub geometry_changed : Shape → Shape → Bool
geometry_changed (at lon lat) (at lon' lat') = not (number_eq lat lat' && number_eq lon lon')
geometry_changed (along is) (along js) = not (ids_eq is js)
geometry_changed _ _ = false

-- A member without its role; the program joins type and ID by a slash.
abbrev pub same_member : Member → Member → Bool
same_member m n = kind_eq m.type n.type && eqb_ℤ m.ref n.ref

abbrev pub find_member : Member → List Member → Option Member
find_member m [] = none
find_member m (n ∷ ns) = if same_member n m then some n else find_member m ns

pub data MemberChange : Type 0 where
  removed : Member → MemberChange
  added : Member → MemberChange
  new_role : Member → Member → MemberChange
  reordered : MemberChange

abbrev pub absent : (Member → MemberChange) → List Member → Member → List MemberChange
absent note ns m = if any (λ n. same_member n m) ns then [] else note m ∷ []

abbrev pub compare_role : Option Member → Member → List MemberChange
compare_role none m = []
compare_role (some prior) m = if text_eq prior.role m.role then [] else new_role prior m ∷ []

abbrev pub same_members : List Member → List Member → Bool
same_members [] [] = true
same_members (m ∷ ms) (n ∷ ns) = same_member m n && same_members ms ns
same_members _ _ = false

abbrev pub or_reordered : List MemberChange → Bool → List MemberChange
or_reordered [] false = reordered ∷ []
or_reordered out _ = out

unfoldable pub member_changes : List Member → List Member → List MemberChange
member_changes before after =
    or_reordered
      (flat_map (absent removed after) before
        ++ (flat_map (absent added before) after
            ++ flat_map (λ m. compare_role (find_member m before) m) after))
      (same_members before after)

shape_unchanged : Shape → Shape → Bool
shape_unchanged (joining ms) (joining ns) = is_nil (member_changes ms ns)
shape_unchanged s t = not (geometry_changed s t)

unfoldable pub element_unchanged : Element → Element → Bool
unfolding shape_unchanged
element_unchanged base value =
    is_nil (changes base.tags value.tags) && shape_unchanged base.shape value.shape
