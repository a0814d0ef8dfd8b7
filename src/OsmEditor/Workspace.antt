-- ===== src/OsmEditor/Workspace.antt =====
-- The working set of cmd/web/osm-editor.js: `persist` and the buttons for undo and redo. A JSON text
-- of drafts stands for the drafts; the two are compared as the texts are.
pub mod History
pub mod Discard
mod Tests
use osmmini.Base.{
  ℕ, zero, suc, Bool, true, false, ◌&&◌, not, Option, none, some, List, [], ◌∷◌, Text, text_eq,
  length, ltb, if◌then◌else◌,
}
use osmmini.Base.Int.{ℤ, eqb_ℤ}
use osmmini.Json.Numbers.{Number, number_eq}
use osmmini.OsmEditor.Tags.{Tags}
use osmmini.OsmEditor.Element.{Member, Shape, at, along, joining, Element}
use osmmini.OsmEditor.Draft.{Center, Draft, deletion, edit, version_eq}
use osmmini.OsmEditor.Changes.{same_member, ids_eq}

abbrev pub tags_eq : Tags → Tags → Bool
tags_eq [] [] = true
tags_eq ((k, v) ∷ t) ((j, w) ∷ u) = text_eq k j && (text_eq v w && tags_eq t u)
tags_eq _ _ = false

abbrev pub members_eq : List Member → List Member → Bool
members_eq [] [] = true
members_eq (m ∷ ms) (n ∷ ns) = same_member m n && (text_eq m.role n.role && members_eq ms ns)
members_eq _ _ = false

abbrev pub shape_eq : Shape → Shape → Bool
shape_eq (at a b) (at c d) = number_eq a c && number_eq b d
shape_eq (along is) (along js) = ids_eq is js
shape_eq (joining ms) (joining ns) = members_eq ms ns
shape_eq _ _ = false

abbrev pub element_eq : Element → Element → Bool
element_eq d e =
    eqb_ℤ d.id e.id
    && (version_eq d.version e.version && (tags_eq d.tags e.tags && shape_eq d.shape e.shape))

abbrev pub base_eq : Option Element → Option Element → Bool
base_eq none none = true
base_eq (some d) (some e) = element_eq d e
base_eq _ _ = false

abbrev pub center_eq : Option Center → Option Center → Bool
center_eq none none = true
center_eq (some (a, b)) (some (c, d)) = number_eq a c && number_eq b d
center_eq _ _ = false

abbrev pub draft_eq : Draft → Draft → Bool
draft_eq (deletion d) (deletion e) = element_eq d e
draft_eq (edit a v b) (edit c w d) = base_eq a c && (element_eq v w && center_eq b d)
draft_eq _ _ = false

-- `JSON.stringify(drafts)===saved`
abbrev pub drafts_eq : List Draft → List Draft → Bool
drafts_eq [] [] = true
drafts_eq (d ∷ ds) (e ∷ es) = draft_eq d e && drafts_eq ds es
drafts_eq _ _ = false

-- The stacks hold the last push first. `stored` is what the browser's storage holds.
pub record Workspace : Type 0 where
  pub drafts : List Draft
  pub undo : List (List Draft)
  pub redo : List (List Draft)
  pub saved : List Draft
  pub stored : List Draft

abbrev pub undo_limit : ℕ
undo_limit = 30

-- `shift`, on a stack that holds the first push last.
abbrev pub without_first {ℓ} : {A : Type ℓ} → List A → List A
without_first [] = []
without_first (x ∷ []) = []
without_first (x ∷ y ∷ s) = x ∷ without_first (y ∷ s)

pub push_undo : List Draft → List (List Draft) → List (List Draft)
push_undo ds stack =
    if ltb undo_limit (length (ds ∷ stack)) then without_first (ds ∷ stack) else ds ∷ stack

note_change : Bool → Workspace → Workspace
unfolding push_undo
note_change recorded s =
    if recorded && not (drafts_eq s.drafts s.saved)
    then record s { undo = push_undo s.saved s.undo; redo = [] }
    else s

-- `persist`, where the storage has room or not.
pub persist : Bool → Bool → Workspace → Workspace
unfolding note_change
persist recorded room s =
    let t = note_change recorded s in
    record t { saved = t.drafts; stored = if room then t.drafts else t.stored }

-- The end of every edit: `drafts=next` and `persist()`.
unfoldable pub commit : Bool → List Draft → Workspace → Workspace
unfolding persist
commit room next s = persist true room (record s { drafts = next })

-- `drafts.splice(index,1)`
abbrev pub remove_at : ℕ → List Draft → List Draft
remove_at i [] = []
remove_at zero (d ∷ ds) = ds
remove_at (suc i) (d ∷ ds) = d ∷ remove_at i ds

-- The button that takes a deletion back, where `canSwitch()` allows it or not.
unfoldable pub discard_deletion : Bool → Bool → ℕ → Workspace → Workspace
discard_deletion may_switch room i s =
    if may_switch then commit room (remove_at i s.drafts) s else s

back : Bool → List (List Draft) → Workspace → Workspace
unfolding persist
back room [] s = s
back room (ds ∷ stack) s =
    persist false room (record s { redo = s.drafts ∷ s.redo; drafts = ds; undo = stack })

forward : Bool → List (List Draft) → Workspace → Workspace
unfolding persist
forward room [] s = s
forward room (ds ∷ stack) s =
    persist false room (record s { undo = s.drafts ∷ s.undo; drafts = ds; redo = stack })

-- The two buttons, where `canSwitch()` allows it or not.
unfoldable pub click_undo : Bool → Bool → Workspace → Workspace
unfolding back
click_undo may_switch room s = if may_switch then back room s.undo s else s

unfoldable pub click_redo : Bool → Bool → Workspace → Workspace
unfolding forward
click_redo may_switch room s = if may_switch then forward room s.redo s else s

pub data Action : Type 0 where
  edited : Bool → List Draft → Action
  undone : Bool → Bool → Action
  redone : Bool → Bool → Action

unfoldable pub act : Workspace → Action → Workspace
act s (edited room next) = commit room next s
act s (undone may_switch room) = click_undo may_switch room s
act s (redone may_switch room) = click_redo may_switch room s

unfoldable pub acts : Workspace → List Action → Workspace
acts s [] = s
acts s (a ∷ rest) = acts (act s a) rest
