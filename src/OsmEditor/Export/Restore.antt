-- ===== src/OsmEditor/Export/Restore.antt =====
-- A saved workspace is read back as it was.
use osmmini.Base.{
  err, Holds, Ensures-bind, Ensures-of_eq, Bool-cases, inl, inr, sym, ◌∙◌, ◌≡◌, ◌≤◌, refl, Bool,
  true, false, Option, none, some, List, map, codes, length, ltb, arith, All, ok, traverse,
  traverse-map, Ensures-traverse, Ensures, Ensures-eq, length-map,
}
use osmmini.Base.Int.{pos}
use osmmini.Json.{Value, null, number, array, object, property, end, items, to_items, field}
use osmmini.Json.Numbers.{whole}
use osmmini.OsmEditor.Problem.{invalid_backup}
use osmmini.OsmEditor.Draft.{Draft, validate_draft}
use osmmini.OsmEditor.Draft.Valid.{IsDraft, validate_draft-Ensures}
use osmmini.OsmEditor.Draft.Encode.{draft_value, validate_draft-draft_value}
use osmmini.OsmEditor.Element.Encode.{items-to_items}
use osmmini.OsmEditor.Export.{Change, osc_of, osc, drafts_of, is_one, restore_drafts, restore}

-- `{version: 1, drafts}`, as `persist` and the backup write it.
unfoldable pub saved : List Draft → Value
saved ds = object (
    property (codes "version") (number (whole (pos 1)))
      (property (codes "drafts") (array (to_items (map draft_value ds))) end))

validated :
    (ds : List Draft) → All IsDraft ds → traverse validate_draft (map draft_value ds) ≡ ok ds
validated = traverse-map IsDraft validate_draft draft_value validate_draft-draft_value

-- For valid drafts, exporting what they are written as is exporting them.
pub osc-draft_values :
    (ds : List Draft) → All IsDraft ds → length ds ≤ 100 → osc (map draft_value ds) ≡ osc_of ds
unfolding osc
osc-draft_values ds h n = rw (length-map draft_value ds, validated ds h) (ground arith)

drafts_of-saved :
    (ds : List Draft)
    → length ds ≤ 100
    → drafts_of (field (codes "drafts") (saved ds)) ≡ some (map draft_value ds)
unfolding saved
drafts_of-saved ds n =
    rw (items-to_items (map draft_value ds), length-map draft_value ds) (ground arith)

restore_drafts-saved :
    (ds : List Draft) {g : Change}
    → All IsDraft ds
    → length ds ≤ 100
    → osc (map draft_value ds) ≡ ok g
    → restore (saved ds) ≡ ok ds
unfolding restore saved restore_drafts
restore_drafts-saved ds h n e = rw (drafts_of-saved ds n, validated ds h, e) refl

-- A saved workspace of at most 100 valid drafts that can be exported is restored as it was.
pub restore-saved :
    (ds : List Draft) {g : Change}
    → All IsDraft ds
    → length ds ≤ 100
    → osc_of ds ≡ ok g
    → restore (saved ds) ≡ ok ds
restore-saved ds h n e = restore_drafts-saved ds h n (osc-draft_values ds h n ∙ e)

-- More than 100 drafts are refused.
pub restore-saved_full :
    (ds : List Draft) → 101 ≤ length ds → restore (saved ds) ≡ err invalid_backup
unfolding restore saved restore_drafts
restore-saved_full ds n =
    let e : ltb 100 (length ds) ≡ true = ground arith in
    rw (items-to_items (map draft_value ds), length-map draft_value ds, e) refl

abbrev pub IsWorkspace : List Draft → Type 0
IsWorkspace ds = All IsDraft ds × (length ds ≤ 100) × ((g : Change) × (osc_of ds ≡ ok g))

restore_drafts-IsWorkspace :
    (o : Option (List Value)) (b : Bool)
    → Holds (λ raws. length raws ≤ 100) o
    → Ensures IsWorkspace (restore_drafts o b)
unfolding restore_drafts
restore_drafts-IsWorkspace none b n = tt
restore_drafts-IsWorkspace (some raws) false n = tt
restore_drafts-IsWorkspace (some raws) true n =
    Ensures-bind _ _ (traverse validate_draft raws) _
      (Ensures-traverse IsDraft validate_draft raws validate_draft-Ensures)
      λ ds p.
        let few : length ds ≤ 100 = omega (arith, p.1) in
        Ensures-bind (λ g. osc (map draft_value ds) ≡ ok g) _ (osc (map draft_value ds)) _
          (Ensures-of_eq _ _ (λ g e. e))
          λ g e. (p.0, few, (g, sym (osc-draft_values ds p.0 few) ∙ e))

drafts_of-few : (v : Option Value) → Holds (λ raws. length raws ≤ 100) (drafts_of v)
drafts_of-few (some (array vs)) = elim (Bool-cases (ltb 100 (length (items vs)))) [
  | inl e ↦ rw e tt
  | inr e ↦ rw e (ground arith)
]
drafts_of-few none = tt
drafts_of-few (some _) = tt

restore-Ensures : (raw : Value) → Ensures IsWorkspace (restore raw)
unfolding restore
restore-Ensures null = tt
restore-Ensures raw =
    restore_drafts-IsWorkspace (drafts_of (field (codes "drafts") raw))
      (is_one (field (codes "version") raw)) (drafts_of-few (field (codes "drafts") raw))

-- What `restore` returns is a workspace of at most 100 valid drafts that can be exported.
pub restore-IsWorkspace : (raw : Value) {ds : List Draft} → restore raw ≡ ok ds → IsWorkspace ds
restore-IsWorkspace raw = Ensures-eq IsWorkspace (restore raw) (restore-Ensures raw)
