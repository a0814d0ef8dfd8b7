-- ===== src/OsmEditor/Tests.antt =====
-- Runs of cmd/web/osm-editor.js, and the theorems at a batch of drafts: a new node, a new way that
-- uses it, an edited node and a deletion.
use osmmini.Base.{
  ◌≡◌, ◌≢◌, ◌↔◌, refl, true, false, Option, none, some, List, [], ◌∷◌, Text, codes, In, inl, inr,
  All, arith, ok, err,
}
use osmmini.Base.Int.{pos, negsuc}
use osmmini.Json.{string}
use osmmini.Json.Numbers.{whole, between}
use osmmini.OsmEditor.Problem.{duplicate_tag}
use osmmini.OsmEditor.Tags.{Tags, tags, xml_text, tag_allowed}
use osmmini.OsmEditor.Tags.Valid.{IsTags, tag_entries, tags-IsTags}
use osmmini.OsmEditor.Element.{
  negative, type, node, at, along, Element, element, kind_of, ref_id, valid_id, placeholder, rank,
}
use osmmini.OsmEditor.Element.Valid.{IsElement, element-IsElement}
use osmmini.OsmEditor.Element.Encode.{to_value, element-to_value}
use osmmini.OsmEditor.Draft.{
  Center, Draft, deletion, edit, view_center, blank, check_edit, validate_draft,
}
use osmmini.OsmEditor.Draft.Valid.{IsDraft, validate_draft-IsDraft}
use osmmini.OsmEditor.Draft.Encode.{draft_value, validate_draft-draft_value}
use osmmini.OsmEditor.References.Placeholders.{next_temp_id-fresh}
use osmmini.OsmEditor.References.{next_temp_id, key, exists_in, collect_issues}
use osmmini.OsmEditor.References.Resolve.{Unique, Intact}
use osmmini.OsmEditor.References.Intact.{collect_issues-Intact}
use osmmini.OsmEditor.Changes.{TagChange, changes, geometry_changed, element_unchanged, get}
use osmmini.OsmEditor.Changes.Same.{element_unchanged_iff}
use osmmini.OsmEditor.Export.{Change, osc_of, restore, arrange, sort_by}
use osmmini.OsmEditor.Export.Content.{osc_of-sections}
use osmmini.OsmEditor.Export.Order.{create-references, delete-references}
use osmmini.OsmEditor.Export.Restore.{saved, IsWorkspace, restore-saved, restore-IsWorkspace}

abbrev bench : Tags
bench = (codes "amenity", codes "bench") ∷ (codes "name", codes "Süd") ∷ []

abbrev new_node : Element
new_node = record {
  id = negsuc 0;
  version = none;
  tags = bench;
  shape = at (whole (pos 13)) (between (pos 52) 7);
}

abbrev new_way : Element
new_way = record {
  id = negsuc 0;
  version = none;
  tags = (codes "highway", codes "path") ∷ [];
  shape = along (negsuc 0 ∷ pos 7 ∷ []);
}

abbrev old_node : Element
old_node = record {
  id = pos 7;
  version = some (pos 3);
  tags = [];
  shape = at (whole (pos 13)) (whole (pos 52));
}

abbrev moved_node : Element
moved_node = record old_node { shape = at (whole (pos 14)) (whole (pos 52)) }

abbrev old_way : Element
old_way = record {
  id = pos 9;
  version = some (pos 1);
  tags = [];
  shape = along (pos 8 ∷ pos 7 ∷ []);
}

abbrev lone_node : Element
lone_node = record old_node { id = pos 8 }

abbrev batch : List Draft
batch =
    edit none new_way none
    ∷ edit none new_node (some (whole (pos 13), whole (pos 52)))
    ∷ edit (some old_node) moved_node none
    ∷ deletion lone_node
    ∷ deletion old_way
    ∷ []

abbrev change : Change
change = record {
  create = new_node ∷ new_way ∷ [];
  modify = moved_node ∷ [];
  delete = old_way ∷ lone_node ∷ [];
}

osc_of-batch : osc_of batch ≡ ok change
unfolding osc_of exists_in collect_issues blank element_unchanged changes geometry_changed arrange
    sort_by rank
osc_of-batch = refl

tags_duplicate :
    tags ((codes "name", string (codes "a")) ∷ (codes "name", string (codes "b")) ∷ [])
    ≡ err (duplicate_tag (codes "name"))
unfolding tags tag_allowed xml_text
tags_duplicate = refl

tags_bench : tags (tag_entries bench) ≡ ok bench
unfolding tags tag_allowed xml_text
tags_bench = refl

bench-IsTags : IsTags bench
bench-IsTags = tags-IsTags (tag_entries bench) tags_bench

element-new_node : element true (to_value new_node) ≡ ok new_node
unfolding element to_value tags tag_allowed xml_text kind_of placeholder
element-new_node = refl

validated : All (λ d. validate_draft (draft_value d) ≡ ok d) batch
unfolding validate_draft draft_value element to_value tags tag_allowed xml_text kind_of placeholder
    valid_id ref_id check_edit blank view_center
validated = (refl, (refl, (refl, (refl, (refl, tt)))))

batch-IsDraft : All IsDraft batch
batch-IsDraft = (
  validate_draft-IsDraft _ validated.0,
  (
    validate_draft-IsDraft _ validated.1.0,
    (
      validate_draft-IsDraft _ validated.1.1.0,
      (
        validate_draft-IsDraft _ validated.1.1.1.0,
        (validate_draft-IsDraft _ validated.1.1.1.1.0, tt),
      ),
    ),
  ),
)

create-references_example : (v : Element) × In v (new_node ∷ []) × (key v ≡ (node, negsuc 0))
create-references_example =
    create-references batch osc_of-batch batch-IsDraft (new_node ∷ []) [] new_way (node, negsuc 0)
      refl (inl refl) refl (λ e. cc)

delete-references_example : In lone_node (lone_node ∷ [])
delete-references_example =
    delete-references batch osc_of-batch [] (lone_node ∷ []) old_way lone_node refl (inl refl)
      (λ e. cc) (inr (inl refl))

osc_of-sections_example :
    (In new_way change.create ↔ ((c : Option Center) × In (edit none new_way c) batch))
    × (In new_way change.modify ↔ (
        (b : Element) × (c : Option Center) × In (edit (some b) new_way c) batch
        × (element_unchanged b new_way ≡ false)))
    × (In new_way change.delete ↔ In (deletion new_way) batch)
osc_of-sections_example = osc_of-sections batch osc_of-batch new_way

batch-Unique : Unique batch
batch-Unique = (refl, (refl, (refl, (refl, (refl, tt)))))

collect_issues-Intact_example : (collect_issues batch ≡ []) ↔ Intact batch
collect_issues-Intact_example = collect_issues-Intact batch batch-Unique

restore-saved_example : restore (saved batch) ≡ ok batch
restore-saved_example = restore-saved batch batch-IsDraft (omega arith) osc_of-batch

restore-IsWorkspace_example : IsWorkspace batch
restore-IsWorkspace_example = restore-IsWorkspace (saved batch) restore-saved_example

validate_draft-IsDraft_example : IsDraft (edit none new_way none)
validate_draft-IsDraft_example =
    validate_draft-IsDraft (draft_value (edit none new_way none)) validated.0

validate_draft-draft_value_example :
    validate_draft (draft_value (edit none new_way none)) ≡ ok (edit none new_way none)
validate_draft-draft_value_example =
    validate_draft-draft_value (edit none new_way none) batch-IsDraft.0

element-IsElement_example : IsElement true new_node
element-IsElement_example = element-IsElement true (to_value new_node) element-new_node

element-to_value_example : element true (to_value new_node) ≡ ok new_node
element-to_value_example = element-to_value true new_node element-IsElement_example

abbrev renamed : Tags
renamed = (codes "name", codes "Nord") ∷ (codes "amenity", codes "bench") ∷ []

abbrev renaming : TagChange
renaming = record { name = codes "name"; before = some (codes "Süd"); after = some (codes "Nord") }

changes-run : changes bench renamed ≡ renaming ∷ []
unfolding changes
changes-run = refl

element_unchanged_iff_example :
    (element_unchanged old_way old_way ≡ true)
    ↔ (((k : Text) → get k old_way.tags ≡ get k old_way.tags) × (old_way.shape ≡ old_way.shape))
element_unchanged_iff_example =
    element_unchanged_iff old_way old_way refl
      (((omega arith, refl), ((omega arith, refl), tt)), omega arith, omega arith) tt

next_temp_id-fresh_example :
    (negative (next_temp_id node batch) ≡ true)
    × ((b : Option Element) (v : Element) (c : Option Center)
        → In (edit b v c) batch
        → type v ≡ node
        → v.id ≢ next_temp_id node batch)
next_temp_id-fresh_example = next_temp_id-fresh node batch
