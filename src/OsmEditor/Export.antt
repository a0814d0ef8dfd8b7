-- ===== src/OsmEditor/Export.antt =====
-- `osc` and `restore` of cmd/web/osm-editor.js: the OSM change that a batch of drafts makes, and
-- the backup that is read again. `Xml` writes the change as text.
pub mod Content
pub mod Order
pub mod Restore
use osmmini.Base.{
  ℕ, Bool, true, false, ◌&&◌, ◌||◌, not, Option, none, some, List, [], ◌∷◌, ◌++◌, map, any, Text,
  codes, length, leb, ltb, ◌==◌, if◌then◌else◌, is_nil, ok, err, ◌>>=◌, ◌>>◌, traverse,
}
use osmmini.Base.Int.{ℤ, pos, eqb_ℤ}
use osmmini.Json.{Value, null, number, array, field, items}
use osmmini.Json.Numbers.{whole, number_eq}
use osmmini.OsmEditor.Problem.{
  Checked, too_many_drafts, duplicate_object, unresolved, invalid_backup, type_error,
}
use osmmini.OsmEditor.Element.{rank, Element, type}
use osmmini.OsmEditor.Draft.{Draft, deletion, edit, validate_draft}
use osmmini.OsmEditor.Draft.Encode.{draft_value}
use osmmini.OsmEditor.References.{subject, Key, key_eq, key, collect_issues}
use osmmini.OsmEditor.Changes.{element_unchanged}

-- The loop with the set `seen`.
all_new : List Key → List Draft → Bool
all_new seen [] = true
all_new seen (d ∷ ds) =
    not (any (λ k. key_eq k (key (subject d))) seen) && all_new (key (subject d) ∷ seen) ds

-- The three sections of an osmChange document.
pub record Change : Type 0 where
  pub create : List Element
  pub modify : List Element
  pub delete : List Element

abbrev nothing : Change
nothing = record { create = []; modify = []; delete = [] }

push : Draft → Change → Change
push (deletion b) g = record g { delete = b ∷ g.delete }
push (edit (some b) v c) g = if element_unchanged b v then g else record g { modify = v ∷ g.modify }
push (edit none v c) g = record g { create = v ∷ g.create }

-- The loop that fills the sections, in the order of the drafts.
pub groups : List Draft → Change
unfolding push
groups [] = nothing
groups (d ∷ ds) = push d (groups ds)

-- A stable sort, as `Array.prototype.sort` is: `x` was before all of the list.
pub insert_by : (Element → Element → Bool) → Element → List Element → List Element
insert_by fits x [] = x ∷ []
insert_by fits x (y ∷ ys) =
    let rest = insert_by fits x ys in if fits x y then x ∷ y ∷ ys else y ∷ rest

unfoldable pub sort_by : (Element → Element → Bool) → List Element → List Element
unfolding insert_by
sort_by fits [] = []
sort_by fits (x ∷ xs) = insert_by fits x (sort_by fits xs)

abbrev pub rising : Element → Element → Bool
rising a b = leb (rank (type a)) (rank (type b))

abbrev pub falling : Element → Element → Bool
falling a b = leb (rank (type b)) (rank (type a))

unfoldable pub arrange : Change → Change
unfolding sort_by
arrange g = record g { create = sort_by rising g.create; delete = sort_by falling g.delete }

-- `osc` after the validation of each draft.
unfoldable pub osc_of : List Draft → Checked Change
unfolding all_new groups arrange
osc_of ds =
    if not (all_new [] ds)
    then err duplicate_object
    else if not (is_nil (collect_issues ds))
    then err unresolved
    else ok (arrange (groups ds))

unfoldable pub osc : List Value → Checked Change
osc raws =
    if ltb 100 (length raws) then err too_many_drafts else traverse validate_draft raws >>= osc_of

abbrev is_one : Option Value → Bool
is_one (some (number n)) = number_eq n (whole (pos 1))
is_one _ = false

abbrev drafts_of : Option Value → Option (List Value)
drafts_of (some (array vs)) = if ltb 100 (length (items vs)) then none else some (items vs)
drafts_of _ = none

restore_drafts : Option (List Value) → Bool → Checked (List Draft)
restore_drafts (some raws) true = do
  ds ← traverse validate_draft raws
  osc (map draft_value ds)
  ok ds
restore_drafts _ _ = err invalid_backup

-- `restore`, on the value that `JSON.parse` gives.
unfoldable pub restore : Value → Checked (List Draft)
unfolding restore_drafts
restore null = err type_error
restore d =
    restore_drafts (drafts_of (field (codes "drafts") d)) (is_one (field (codes "version") d))
