-- ===== src/OsmEditor/Workspace/History.antt =====
-- Undo and redo go back and forth between the same states.
use osmmini.Base.{
  suc, subst, ◌≢◌, ◌+◌, ◌≤◌, ◌≡◌, refl, ap, sym, Bool, true, false, List, [], ◌∷◌, length, ltb,
  arith, Bool-cases, inl, inr, All,
}
use osmmini.OsmEditor.Draft.{Draft}
use osmmini.OsmEditor.Workspace.{
  drafts_eq, Workspace, undo_limit, without_first, push_undo, note_change, persist, commit, back,
  forward, click_undo, click_redo, Action, edited, undone, redone, act, acts,
}

-- Both stacks together hold at most 30 states, all of which satisfy P as the drafts do, and what was
-- saved last are the drafts.
pub record IsHistory (P : List Draft → Type 0) (s : Workspace) : Type 0 where
  pub bounded : length s.undo + length s.redo ≤ undo_limit
  pub earlier : All P s.undo
  pub later : All P s.redo
  pub present : P s.drafts
  pub current : s.saved ≡ s.drafts

length-without_first : {A : Type 0} (x : A) (s : List A) → length (without_first (x ∷ s)) ≡ length s
length-without_first x [] = refl
length-without_first x (y ∷ s) = ap suc (length-without_first y s)

All-without_first : {A : Type 0} (P : A → Type 0) (s : List A) → All P s → All P (without_first s)
All-without_first P [] h = h
All-without_first P (x ∷ []) h = tt
All-without_first P (x ∷ y ∷ s) h = (h.0, All-without_first P (y ∷ s) h.1)

push_undo-bound :
    (ds : List Draft) (u : List (List Draft))
    → length u ≤ undo_limit
    → length (push_undo ds u) ≤ undo_limit
unfolding push_undo
push_undo-bound ds u h = ground (arith, length-without_first ds u)

module _ (P : List Draft → Type 0) where
  push_undo-All :
      (ds : List Draft) (u : List (List Draft)) → P ds → All P u → All P (push_undo ds u)
  unfolding push_undo
  push_undo-All ds u p h = elim (Bool-cases (ltb undo_limit (length (ds ∷ u)))) [
    | inl e ↦ rw e (All-without_first P (ds ∷ u) (p, h))
    | inr e ↦ rw e (p, h)
  ]

  commit-IsHistory :
      (room : Bool) (next : List Draft) (s : Workspace)
      → P next
      → IsHistory P s
      → IsHistory P (commit room next s)
  unfolding commit persist note_change
  commit-IsHistory room next s p h = elim (Bool-cases (drafts_eq next s.saved)) [
    | inl e ↦ rw e (record {
      bounded = h.bounded;
      earlier = h.earlier;
      later = h.later;
      present = p;
      current = refl;
    })
    | inr e ↦ rw e (record {
      bounded = omega (arith, push_undo-bound s.saved s.undo (omega (arith, h.bounded)));
      earlier = push_undo-All s.saved s.undo (rw h.current h.present) h.earlier;
      later = tt;
      present = p;
      current = refl;
    })
  ]

  back-IsHistory :
      (room : Bool) (u : List (List Draft)) (s : Workspace)
      → s.undo ≡ u
      → IsHistory P s
      → IsHistory P (back room u s)
  unfolding back persist note_change
  back-IsHistory room [] s e h = h
  back-IsHistory room (ds ∷ u) s e h =
      let p : All P (ds ∷ u) = subst (All P) e h.earlier in
      record {
        bounded = omega (arith, ap length e, h.bounded);
        earlier = p.1;
        later = (h.present, h.later);
        present = p.0;
        current = refl;
      }

  forward-IsHistory :
      (room : Bool) (r : List (List Draft)) (s : Workspace)
      → s.redo ≡ r
      → IsHistory P s
      → IsHistory P (forward room r s)
  unfolding forward persist note_change
  forward-IsHistory room [] s e h = h
  forward-IsHistory room (ds ∷ r) s e h =
      let p : All P (ds ∷ r) = subst (All P) e h.later in
      record {
        bounded = omega (arith, ap length e, h.bounded);
        earlier = (h.present, h.earlier);
        later = p.1;
        present = p.0;
        current = refl;
      }

  -- The edits of a sequence of actions lead to states that satisfy P.
  abbrev pub Edits : List Action → Type 0
  Edits [] = Unit
  Edits (edited room next ∷ rest) = P next × Edits rest
  Edits (_ ∷ rest) = Edits rest

  -- Whatever edits lead to, undo and redo lead to as well, and both stacks together never hold more
  -- than 30 states: if P holds of the drafts at the start, of all states in the stacks and after
  -- each edit, it holds of the drafts and of all states in the stacks after any sequence of edits
  -- and clicks.
  pub acts-IsHistory :
      (s : Workspace) (l : List Action) → IsHistory P s → Edits l → IsHistory P (acts s l)
  unfolding acts act click_undo click_redo
  acts-IsHistory s [] h e = h
  acts-IsHistory s (edited room next ∷ l) h e =
      acts-IsHistory (commit room next s) l (commit-IsHistory room next s e.0 h) e.1
  acts-IsHistory s (undone true room ∷ l) h e =
      acts-IsHistory (back room s.undo s) l (back-IsHistory room s.undo s refl h) e
  acts-IsHistory s (undone false room ∷ l) h e = acts-IsHistory s l h e
  acts-IsHistory s (redone true room ∷ l) h e =
      acts-IsHistory (forward room s.redo s) l (forward-IsHistory room s.redo s refl h) e
  acts-IsHistory s (redone false room ∷ l) h e = acts-IsHistory s l h e

-- Where there is something to undo, redo after undo gives back the drafts and both stacks, and the
-- drafts are what is saved.
pub click_redo-click_undo :
    (s : Workspace)
    → s.undo ≢ []
    → click_redo true true (click_undo true true s)
      ≡ record s { saved = s.drafts; stored = s.drafts }
unfolding click_redo click_undo
click_redo-click_undo s d = from s.undo refl
  where
    from :
        (u : List (List Draft))
        → s.undo ≡ u
        → forward true (back true u s).redo (back true u s)
          ≡ record s { saved = s.drafts; stored = s.drafts }
    from [] e = absurd (d e)
    from (ds ∷ u) e =
        unfold back forward persist note_change in
        ap
          (λ v. record {
            drafts = s.drafts;
            undo = v;
            redo = s.redo;
            saved = s.drafts;
            stored = s.drafts;
          })
          (sym e)

push_undo-head :
    (ds : List Draft) (u : List (List Draft)) → (v : List (List Draft)) × (push_undo ds u ≡ ds ∷ v)
unfolding push_undo
push_undo-head ds [] = ([], refl)
push_undo-head ds (x ∷ u) = elim (Bool-cases (ltb undo_limit (length (ds ∷ x ∷ u)))) [
  | inl e ↦ (without_first (x ∷ u), rw e refl)
  | inr e ↦ (x ∷ u, rw e refl)
]

-- After an edit that changes the saved drafts, undo gives back the drafts that were saved, and redo
-- offers the edited drafts only.
pub click_undo-commit :
    (s : Workspace) (next : List Draft) (room : Bool)
    → drafts_eq next s.saved ≡ false
    → ((click_undo true room (commit room next s)).drafts ≡ s.saved)
      × ((click_undo true room (commit room next s)).redo ≡ next ∷ [])
unfolding click_undo commit persist note_change
click_undo-commit s next room d =
    let (v, e) = push_undo-head s.saved s.undo in unfold back in rw (d, e) (refl, refl)
