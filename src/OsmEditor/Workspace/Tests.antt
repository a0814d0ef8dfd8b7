-- ===== src/OsmEditor/Workspace/Tests.antt =====
-- Runs of undo and redo in cmd/web/osm-editor.js, and the theorems at two small states.
use osmmini.Base.{◌≡◌, refl, true, false, none, some, List, [], ◌∷◌, codes, arith}
use osmmini.Base.Int.{pos, negsuc}
use osmmini.Json.Numbers.{whole}
use osmmini.OsmEditor.Element.{Element, at}
use osmmini.OsmEditor.Draft.{Draft, deletion, edit, blank}
use osmmini.OsmEditor.References.{exists_in, collect_issues}
use osmmini.OsmEditor.References.Resolve.{Unique}
use osmmini.OsmEditor.Workspace.Discard.{collect_issues-discard_deletion}
use osmmini.OsmEditor.Workspace.{
  discard_deletion, Workspace, persist, note_change, back, commit, click_undo, click_redo, Action,
  edited, undone, redone, acts,
}
use osmmini.OsmEditor.Workspace.History.{
  IsHistory, acts-IsHistory, click_redo-click_undo, click_undo-commit,
}

abbrev bench : List Draft
bench =
    edit none
      (record {
        id = negsuc 0;
        version = none;
        tags = (codes "amenity", codes "bench") ∷ [];
        shape = at (whole (pos 13)) (whole (pos 52));
      })
      none
    ∷ []

abbrev empty : Workspace
empty = record { drafts = []; undo = []; redo = []; saved = []; stored = [] }

-- One edit was made.
abbrev changed : Workspace
changed = record { drafts = bench; undo = [] ∷ []; redo = []; saved = bench; stored = bench }

-- It was undone.
abbrev reverted : Workspace
reverted = record { drafts = []; undo = []; redo = bench ∷ []; saved = []; stored = [] }

commit-run : commit true bench empty ≡ changed
unfolding commit persist note_change
commit-run = refl

click_undo-run : click_undo true true changed ≡ reverted
unfolding click_undo back persist note_change
click_undo-run = refl

abbrev NoIssues : List Draft → Type 0
NoIssues ds = collect_issues ds ≡ []

bench-NoIssues : NoIssues bench
unfolding collect_issues exists_in blank
bench-NoIssues = refl

empty-IsHistory : IsHistory NoIssues empty
unfolding collect_issues
empty-IsHistory = record {
  bounded = omega arith;
  earlier = tt;
  later = tt;
  present = refl;
  current = refl;
}

abbrev clicks : List Action
clicks = edited true bench ∷ undone true true ∷ redone true false ∷ []

acts-IsHistory_example : IsHistory NoIssues (acts empty clicks)
acts-IsHistory_example = acts-IsHistory NoIssues empty clicks empty-IsHistory (bench-NoIssues, tt)

click_redo-click_undo_example :
    click_redo true true (click_undo true true changed)
    ≡ record changed { saved = bench; stored = bench }
click_redo-click_undo_example = click_redo-click_undo changed (λ e. cc)

click_undo-commit_example :
    ((click_undo true true (commit true bench empty)).drafts ≡ [])
    × ((click_undo true true (commit true bench empty)).redo ≡ bench ∷ [])
click_undo-commit_example = click_undo-commit empty bench true refl

-- A deletion next to a new object.
abbrev tree : Element
tree = record {
  id = pos 3;
  version = some (pos 1);
  tags = [];
  shape = at (whole (pos 13)) (whole (pos 52));
}

abbrev felled : Workspace
felled = record {
  drafts = deletion tree ∷ bench;
  undo = [];
  redo = [];
  saved = deletion tree ∷ bench;
  stored = [];
}

felled-NoIssues : NoIssues (deletion tree ∷ bench)
unfolding collect_issues exists_in blank
felled-NoIssues = refl

collect_issues-discard_deletion_example :
    Unique (discard_deletion true true 0 felled).drafts
    × (collect_issues (discard_deletion true true 0 felled).drafts ≡ [])
collect_issues-discard_deletion_example =
    collect_issues-discard_deletion felled 0 tree true true (refl, (refl, tt)) refl felled-NoIssues
