-- ===== src/OsmEditor/Workspace/Discard.antt =====
-- Taking a deletion back: the button of a deleted draft in cmd/web/osm-editor.js, which does not check
-- the references.
use osmmini.Base.{
  Bool-cases, ℕ, zero, suc, ◌≡◌, refl, ap, ◌∙◌, Bool, true, false, none, some, List, [], ◌∷◌,
  get_elem?, In, inl, inr, ◌⊎◌, arith,
}
use osmmini.Base.Int.{ℤ}
use osmmini.OsmEditor.Element.{Element}
use osmmini.OsmEditor.Draft.{Draft, deletion, edit}
use osmmini.OsmEditor.References.{subject, deleted, Key, key, collect_issues}
use osmmini.OsmEditor.References.Resolve.{Unique, Resolves, Attached, Intact, has_key}
use osmmini.OsmEditor.References.Intact.{collect_issues-Intact}
use osmmini.OsmEditor.Workspace.{
  Workspace, drafts_eq, persist, note_change, remove_at, commit, discard_deletion,
}

-- The drafts without one: a sublist.
remove_at-In : (d : Draft) (i : ℕ) (ds : List Draft) → In d (remove_at i ds) → In d ds
remove_at-In d i [] m = m
remove_at-In d zero (e ∷ ds) m = inr m
remove_at-In d (suc i) (e ∷ ds) (inl q) = inl q
remove_at-In d (suc i) (e ∷ ds) (inr m) = inr (remove_at-In d i ds m)

In-remove_at :
    (d r : Draft) (i : ℕ) (ds : List Draft)
    → get_elem? ds i ≡ some r
    → In d ds
    → (d ≡ r) ⊎ In d (remove_at i ds)
In-remove_at d r i [] h m = absurd m
In-remove_at d r zero (e ∷ ds) h (inl q) = let p : e ≡ r = cc in inl (q ∙ p)
In-remove_at d r zero (e ∷ ds) h (inr m) = inr m
In-remove_at d r (suc i) (e ∷ ds) h (inl q) = inr (inl q)
In-remove_at d r (suc i) (e ∷ ds) h (inr m) = elim (In-remove_at d r i ds h m) [
  | inl q ↦ inl q
  | inr n ↦ inr (inr n)
]

has_key-remove_at :
    (k : Key) (i : ℕ) (ds : List Draft) → has_key k ds ≡ false → has_key k (remove_at i ds) ≡ false
has_key-remove_at k i [] h = h
has_key-remove_at k zero (e ∷ ds) h = ground arith
has_key-remove_at k (suc i) (e ∷ ds) h = ground (arith, has_key-remove_at k i ds)

remove_at-Unique : (i : ℕ) (ds : List Draft) → Unique ds → Unique (remove_at i ds)
remove_at-Unique i [] u = u
remove_at-Unique zero (e ∷ ds) u = u.1
remove_at-Unique (suc i) (e ∷ ds) u =
    (has_key-remove_at (key (subject e)) i ds u.0, remove_at-Unique i ds u.1)

module _ (ds : List Draft) (i : ℕ) (b : Element) (h : get_elem? ds i ≡ some (deletion b)) where
  Resolves-remove_at : (k : Key) → Resolves ds k → Resolves (remove_at i ds) k
  Resolves-remove_at k (inr (p, n)) = inr (p, has_key-remove_at k i ds n)
  Resolves-remove_at k (inl (d, m, p, q)) = elim (In-remove_at d (deletion b) i ds h m) [
    | inl e ↦ cc (p, ap deleted e)
    | inr n ↦ inl (d, n, p, q)
  ]

  Attached-remove_at : (n : ℤ) → Attached ds n → Attached (remove_at i ds) n
  Attached-remove_at n (a, v, c, m, r) = elim (In-remove_at (edit a v c) (deletion b) i ds h m) [
    | inl e ↦ cc (ap deleted e)
    | inr k ↦ (a, v, c, k, r)
  ]

  remove_at-Intact : Intact ds → Intact (remove_at i ds)
  remove_at-Intact t = record {
    resolved = λ a v c k m r.
        Resolves-remove_at k (t.resolved a v c k (remove_at-In (edit a v c) i ds m) r);
    attached = λ v c m p q.
        Attached-remove_at v.id (t.attached v c (remove_at-In (edit none v c) i ds m) p q);
  }

commit-drafts :
    (room : Bool) (next : List Draft) (s : Workspace) → (commit room next s).drafts ≡ next
unfolding commit persist note_change
commit-drafts room next s = elim (Bool-cases (drafts_eq next s.saved)) [
  | inl e ↦ rw e refl
  | inr e ↦ rw e refl
]

-- Taking a deletion back leaves the references in order, though the program does not look: if no
-- object is drafted twice and nothing is reported, then that is so afterwards.
pub collect_issues-discard_deletion :
    (s : Workspace) (i : ℕ) (b : Element) (may_switch room : Bool)
    → Unique s.drafts
    → get_elem? s.drafts i ≡ some (deletion b)
    → collect_issues s.drafts ≡ []
    → Unique (discard_deletion may_switch room i s).drafts
      × (collect_issues (discard_deletion may_switch room i s).drafts ≡ [])
unfolding discard_deletion
collect_issues-discard_deletion s i b false room u h e = (u, e)
collect_issues-discard_deletion s i b true room u h e =
    let v : Unique (remove_at i s.drafts) = remove_at-Unique i s.drafts u in
    rw (commit-drafts room (remove_at i s.drafts) s) (
      v,
      (collect_issues-Intact (remove_at i s.drafts) v).1
          (remove_at-Intact s.drafts i b h ((collect_issues-Intact s.drafts u).0 e)),
    )
