-- ===== src/OsmEditor/References/Intact.antt =====
-- `collectIssues` reports nothing exactly when the references are intact.
use osmmini.Base.{
  ◌≡◌, ◌↔◌, refl, Bool, true, false, ◌&&◌, ◌||◌, not, Option, none, some, List, [], any, arith, In,
  Bool-cases, inl, inr, any-In, In-of_any, flat_map, flat_map-eq-nil, flat_map-eq-nil_of,
  append-eq-nil,
}
use osmmini.Base.Int.{ℤ}
use osmmini.OsmEditor.Element.{node, kind_eq, Element, type}
use osmmini.OsmEditor.Draft.{Center, Draft, deletion, edit, described}
use osmmini.OsmEditor.References.{
  Key, key, exists_in, references, unless, reference_issues, uses_node, uses_member, use_issues,
  deletion_issues, uses, stray_issues, collect_issues,
}
use osmmini.OsmEditor.References.Resolve.{
  kind_eq_iff, Unique, Resolves, Attached, Intact, known-live, exists_in-Resolves, unless-eq-nil,
  uses-In,
}

uses-Attached : (ds : List Draft) (i : ℤ) → (any (uses i) ds ≡ true) ↔ Attached ds i
unfolding uses
uses-Attached ds i = (to, from)
  where
    found : (d : Draft) → In d ds → uses i d ≡ true → Attached ds i
    found (deletion b) m h = cc
    found (edit b v c) m h = (b, v, c, m, (uses-In v.shape node i).0 h)

    to : any (uses i) ds ≡ true → Attached ds i
    to h = let (d, m, u) = In-of_any (uses i) ds h in found d m u

    from : Attached ds i → any (uses i) ds ≡ true
    from (b, v, c, m, r) = any-In (uses i) (edit b v c) ds m ((uses-In v.shape node i).1 r)

-- The condition of the third loop, as an implication.
needed : (k t a : Bool) → k ≡ true → t ≡ false → (not k || (t || a)) ≡ true → a ≡ true
needed k t a p q h = ground arith

unchecked : (k t a : Bool) → (k ≡ true → t ≡ false → a ≡ true) → (not k || (t || a)) ≡ true
unchecked k t a h = ground arith

module _ (ds : List Draft) (u : Unique ds) where
  reference_issues-nil :
      (b : Option Element) (v : Element) (c : Option Center)
      → (reference_issues ds (edit b v c) ≡ [])
        ↔ ((k : Key) → In k (references v.shape) → Resolves ds k)
  unfolding reference_issues
  reference_issues-nil b v c = (
    λ h k m.
        (exists_in-Resolves ds k u).0
          ((unless-eq-nil (exists_in ds k) _).0 (flat_map-eq-nil _ (references v.shape) h k m)),
    λ h.
        flat_map-eq-nil_of _ (references v.shape)
          λ k m. (unless-eq-nil (exists_in ds k) _).1 ((exists_in-Resolves ds k u).1 (h k m)),
  )

  -- A deletion is reported only with the reference that it breaks.
  deletion_issues-nil :
      (d : Draft)
      → ((b : Option Element) (v : Element) (c : Option Center) (k : Key)
          → In (edit b v c) ds
          → In k (references v.shape)
          → Resolves ds k)
      → In d ds
      → deletion_issues ds d ≡ []
  unfolding deletion_issues use_issues unless
  deletion_issues-nil (edit b v c) h m = refl
  deletion_issues-nil (deletion e) h m = flat_map-eq-nil_of (use_issues e) ds unused
    where
      gone : exists_in ds (key e) ≡ false
      gone = unfold exists_in in rw (known-live ds (deletion e) u m) refl

      unused : (d : Draft) → In d ds → use_issues e d ≡ []
      unused (deletion b) n = refl
      unused (edit b v c) n =
          elim (Bool-cases
            (kind_eq (type e) node && uses_node v.shape e.id || uses_member v.shape (key e))) [
              | inl t ↦
                  let r =
                    (exists_in-Resolves ds (key e) u).1
                      (h b v c (key e) n ((uses-In v.shape (type e) e.id).0 t)) in
                  cc gone
              | inr f ↦ ground arith
            ]

  stray_issues-nil :
      (v : Element) (c : Option Center)
      → (stray_issues ds (edit none v c) ≡ [])
        ↔ (type v ≡ node → described v.tags ≡ false → Attached ds v.id)
  unfolding stray_issues
  stray_issues-nil v c = (
    λ h t e.
        (uses-Attached ds v.id).0
          (needed _ _ _ ((kind_eq_iff (type v) node).1 t) e ((unless-eq-nil _ _).0 h)),
    λ h. (unless-eq-nil _ _).1 (
        unchecked (kind_eq (type v) node) (described v.tags) _
          λ t e. (uses-Attached ds v.id).1 (h ((kind_eq_iff (type v) node).0 t) e)),
  )

  collect_sound : collect_issues ds ≡ [] → Intact ds
  unfolding collect_issues
  collect_sound h =
      let (r, rest) = append-eq-nil (flat_map (reference_issues ds) ds) _ h in
      let (x, s) = append-eq-nil (flat_map (deletion_issues ds) ds) _ rest in
      record {
        resolved =
            λ b v c k m. (reference_issues-nil b v c).0 (flat_map-eq-nil _ ds r (edit b v c) m) k;
        attached = λ v c m. (stray_issues-nil v c).0 (flat_map-eq-nil _ ds s (edit none v c) m);
      }

  collect_complete : Intact ds → collect_issues ds ≡ []
  unfolding collect_issues
  collect_complete h =
      rw
        (
          flat_map-eq-nil_of (reference_issues ds) ds (λ d. fine d),
          flat_map-eq-nil_of (deletion_issues ds) ds (λ d. deletion_issues-nil d h.resolved),
          flat_map-eq-nil_of (stray_issues ds) ds (λ d. kept d),
        )
        refl
    where
      fine : (d : Draft) → In d ds → reference_issues ds d ≡ []
      fine (deletion b) m = refl
      fine (edit b v c) m = (reference_issues-nil b v c).1 (λ k. h.resolved b v c k m)

      kept : (d : Draft) → In d ds → stray_issues ds d ≡ []
      kept (deletion b) m = refl
      kept (edit (some b) v c) m = refl
      kept (edit none v c) m = (stray_issues-nil v c).1 (h.attached v c m)

-- For a batch in which no object is drafted twice, `collectIssues` reports nothing exactly when
-- every reference of a draft that stays resolves, to a draft that stays or to an object of the
-- server that no draft touches, and every new node without a property is referred to.
pub collect_issues-Intact : (ds : List Draft) → Unique ds → (collect_issues ds ≡ []) ↔ Intact ds
collect_issues-Intact ds u = (collect_sound ds u, collect_complete ds u)
