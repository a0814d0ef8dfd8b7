-- ===== src/OsmEditor/Way/Limit.antt =====
-- How many drafts a split leaves.
use osmmini.Base.{
  suc, ◌≤◌, ◌≡◌, true, Option, none, some, List, [], ◌∷◌, ◌++◌, map, length, length-append, ok, err,
  traverse, arith, Bool-cases, inl, inr, Ensures, Ensures-eq, Ensures-any, Ensures-bind, All,
  Ensures-traverse, is_nil,
}
use osmmini.Base.Int.{ℤ}
use osmmini.OsmEditor.Problem.{Checked, invalid_backup}
use osmmini.OsmEditor.Element.{Element, element, along}
use osmmini.OsmEditor.Draft.{Center, Draft, edit, validate_draft}
use osmmini.OsmEditor.Draft.Encode.{draft_value}
use osmmini.OsmEditor.References.{check_references}
use osmmini.OsmEditor.Export.{restore}
use osmmini.OsmEditor.Export.Restore.{saved, restore-saved_full}
use osmmini.OsmEditor.Way.{
  put_draft, patch_for_split, patch_relations_for_split, split_drafts, split_nodes, perform_split,
  nodes_of_shape,
}

put_draft-length : (d : Draft) (ds : List Draft) → length ds ≤ length (put_draft d ds)
unfolding put_draft
put_draft-length d [] = omega arith
put_draft-length d (e ∷ ds) = ground (arith, put_draft-length d ds)

abbrev Grown : List Draft → List Draft → Type 0
Grown ds next = suc (length ds) ≤ length next

patched-Grown :
    (old new : ℤ) (ds l : List Draft)
    → suc (length ds) ≤ length l
    → Ensures (Grown ds) (patch_relations_for_split old new l)
unfolding patch_relations_for_split
patched-Grown old new ds l h = weaken (traverse (patch_for_split old new) l) (
    Ensures-traverse (λ _. Unit) (patch_for_split old new) l
      (λ d. Ensures-any (patch_for_split old new d)))
  where
    weaken :
        (r : Checked (List Draft))
        → Ensures (λ ys. All (λ _. Unit {0}) ys × (length ys ≡ length l)) r
        → Ensures (Grown ds) r
    weaken (ok ys) p = omega (arith, p.1, h)
    weaken (err e) p = tt

split_drafts-Grown :
    (ds : List Draft) (base value : Element) (c : Option Center) (p : List ℤ × List ℤ)
    → Ensures (Grown ds) (split_drafts ds base value c p)
unfolding split_drafts
split_drafts-Grown ds base value c (head, tail) =
    Ensures-bind (λ _. Unit) (Grown ds) (element true _) _ (Ensures-any _)
      λ second _.
        Ensures-bind (λ _. Unit) (Grown ds)
          (validate_draft (draft_value (edit (some base) (record value { shape = along head }) c)))
          _ (Ensures-any _)
          λ one _.
            Ensures-bind (λ _. Unit) (Grown ds) (validate_draft (draft_value (edit none second c)))
              _ (Ensures-any _)
              λ two _.
                Ensures-bind (Grown ds) (Grown ds)
                  (patch_relations_for_split value.id second.id (put_draft one ds ++ two ∷ [])) _
                  (patched-Grown value.id second.id ds (put_draft one ds ++ two ∷ []) (
                    omega (
                      arith,
                      put_draft-length one ds,
                      length-append (put_draft one ds) (two ∷ []),
                    )))
                  λ next g.
                    Ensures-bind (λ _. Unit) (Grown ds) (check_references (map draft_value next)) _
                      (Ensures-any _)
                      λ issues _. elim (Bool-cases (is_nil issues)) [
                        | inl e ↦ rw e g
                        | inr e ↦ rw e tt
                      ]

perform_split-Grown :
    (n : ℤ) (ds : List Draft) (base value : Element) (c : Option Center)
    → Ensures (Grown ds) (perform_split n ds base value c)
unfolding perform_split
perform_split-Grown n ds base value c =
    Ensures-bind (λ _. Unit) (Grown ds) (split_nodes n (nodes_of_shape value.shape)) _
      (Ensures-any _) λ p _. split_drafts-Grown ds base value c p

-- A split that succeeds in a working set of 100 drafts or more leaves one that `restore` refuses.
pub perform_split-restore :
    (n : ℤ) (ds next : List Draft) (base value : Element) (c : Option Center)
    → perform_split n ds base value c ≡ ok next
    → 100 ≤ length ds
    → restore (saved next) ≡ err invalid_backup
perform_split-restore n ds next base value c h m =
    let g : suc (length ds) ≤ length next =
      Ensures-eq (Grown ds) (perform_split n ds base value c)
        (perform_split-Grown n ds base value c) h in
    restore-saved_full next (omega (arith, g, m))
