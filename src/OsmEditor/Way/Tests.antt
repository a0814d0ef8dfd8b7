-- ===== src/OsmEditor/Way/Tests.antt =====
-- Runs of splitting and joining ways in cmd/web/osm-editor.js, and the theorems at concrete ways.
use osmmini.Base.{
  ℕ, zero, suc, ◌≡◌, ◌≤◌, refl, none, some, List, [], ◌∷◌, ◌++◌, codes, length, arith, ok, err,
}
use osmmini.Base.Int.{ℤ, pos, negsuc}
use osmmini.Json.Numbers.{whole}
use osmmini.OsmEditor.Problem.{invalid_backup}
use osmmini.OsmEditor.Tags.{tags, xml_text, tag_allowed}
use osmmini.OsmEditor.Element.{Element, at, along, element, kind_of, placeholder, valid_id, ref_id}
use osmmini.OsmEditor.Element.Encode.{to_value}
use osmmini.OsmEditor.Draft.{Draft, edit, validate_draft, check_edit, blank, view_center}
use osmmini.OsmEditor.Draft.Encode.{draft_value}
use osmmini.OsmEditor.References.{exists_in, collect_issues, next_temp_id, check_references}
use osmmini.OsmEditor.Export.{restore}
use osmmini.OsmEditor.Export.Restore.{saved}
use osmmini.OsmEditor.Way.{
  last, first, split_nodes, merge_nodes, perform_split, patch_relations_for_split, put_draft,
  split_drafts,
}
use osmmini.OsmEditor.Way.Split.{split_nodes-merge_nodes}
use osmmini.OsmEditor.Way.Limit.{perform_split-restore}

abbrev nodes : List ℤ
nodes = pos 1 ∷ pos 2 ∷ pos 3 ∷ pos 4 ∷ []

split-run : split_nodes (pos 2) nodes ≡ ok (pos 1 ∷ pos 2 ∷ [], pos 2 ∷ pos 3 ∷ pos 4 ∷ [])
unfolding split_nodes
split-run = refl

split_nodes-merge_nodes_example :
    (merge_nodes (pos 1 ∷ pos 2 ∷ []) (pos 2 ∷ pos 3 ∷ pos 4 ∷ []) ≡ ok nodes)
    × (last (pos 1 ∷ pos 2 ∷ []) ≡ some (pos 2))
    × (first (pos 2 ∷ pos 3 ∷ pos 4 ∷ []) ≡ some (pos 2))
    × (2 ≤ length (pos 1 ∷ pos 2 ∷ []))
    × (2 ≤ length (pos 2 ∷ pos 3 ∷ pos 4 ∷ []))
split_nodes-merge_nodes_example =
    split_nodes-merge_nodes (pos 2) nodes (pos 1 ∷ pos 2 ∷ []) (pos 2 ∷ pos 3 ∷ pos 4 ∷ [])
      split-run

-- New nodes, each with a property.
abbrev full : ℕ → List Draft
full zero = []
full (suc n) =
    edit none
      (record {
        id = negsuc n;
        version = none;
        tags = (codes "a", codes "b") ∷ [];
        shape = at (whole (pos 0)) (whole (pos 0));
      })
      none
    ∷ full n

abbrev street : Element
street = record {
  id = pos 9;
  version = some (pos 1);
  tags = (codes "h", codes "p") ∷ [];
  shape = along nodes;
}

abbrev west : Draft
west = edit (some street) (record street { shape = along (pos 1 ∷ pos 2 ∷ []) }) none

abbrev east : Draft
east =
    edit none
      (record {
        id = negsuc 0;
        version = none;
        tags = (codes "h", codes "p") ∷ [];
        shape = along (pos 2 ∷ pos 3 ∷ pos 4 ∷ []);
      })
      none

split_full : perform_split (pos 2) (full 100) street street none ≡ ok (full 100 ++ west ∷ east ∷ [])
unfolding perform_split split_nodes split_drafts put_draft patch_relations_for_split
    check_references validate_draft draft_value element to_value tags tag_allowed xml_text kind_of
    placeholder valid_id ref_id check_edit blank view_center exists_in collect_issues next_temp_id
split_full = refl

perform_split-restore_example : restore (saved (full 100 ++ west ∷ east ∷ [])) ≡ err invalid_backup
perform_split-restore_example =
    perform_split-restore (pos 2) (full 100) (full 100 ++ west ∷ east ∷ []) street street none
      split_full (omega arith)
