-- ===== src/OsmEditor/Export/Content.antt =====
-- What stands in the three sections of an export.
use osmmini.Base.{
  ◌≡◌, ◌↔◌, ◌⊎◌, inl, inr, refl, sym, ap, subst, Bool, true, false, not, Option, none, some, List,
  [], ◌∷◌, any, arith, In, Bool-cases, is_nil, ok, &&-eq-true, any-In,
}
use osmmini.OsmEditor.Element.{Element}
use osmmini.OsmEditor.Draft.{Center, Draft, deletion, edit}
use osmmini.OsmEditor.References.{subject, Key, key, key_eq, collect_issues}
use osmmini.OsmEditor.References.Resolve.{key_eq_iff, has_key, Unique, Intact}
use osmmini.OsmEditor.References.Intact.{collect_issues-Intact}
use osmmini.OsmEditor.Changes.{element_unchanged}
use osmmini.OsmEditor.Export.{
  all_new, Change, push, groups, insert_by, sort_by, rising, falling, arrange, osc_of,
}

all_new-unseen :
    (seen : List Key) (ds : List Draft) (k : Key)
    → all_new seen ds ≡ true
    → In k seen
    → has_key k ds ≡ false
unfolding all_new
all_new-unseen seen [] k h m = refl
all_new-unseen seen (d ∷ ds) k h m =
    let (p, q) = &&-eq-true (not (any (λ j. key_eq j (key (subject d))) seen)) _ h in
    let r = all_new-unseen (key (subject d) ∷ seen) ds k q (inr m) in
    elim (Bool-cases (key_eq (key (subject d)) k)) [
      | inl e ↦
          let t =
            any-In (λ j. key_eq j (key (subject d))) k seen m
              ((key_eq_iff k _).1 (sym ((key_eq_iff _ k).0 e))) in
          absurd (ground arith)
      | inr e ↦ rw e r
    ]

all_new-Unique : (seen : List Key) (ds : List Draft) → all_new seen ds ≡ true → Unique ds
unfolding all_new
all_new-Unique seen [] h = tt
all_new-Unique seen (d ∷ ds) h =
    let (p, q) = &&-eq-true (not (any (λ j. key_eq j (key (subject d))) seen)) _ h in
    (
      all_new-unseen (key (subject d) ∷ seen) ds (key (subject d)) q (inl refl),
      all_new-Unique (key (subject d) ∷ seen) ds q,
    )

-- What an export that succeeds has passed.
pub osc_of-ok :
    (ds : List Draft) {g : Change}
    → osc_of ds ≡ ok g
    → Unique ds × Intact ds × (g ≡ arrange (groups ds))
unfolding osc_of
osc_of-ok ds {g} h = elim (Bool-cases (all_new [] ds)) [
  | inr e ↦ cc (rw e at h)
  | inl e ↦ elim (Bool-cases (is_nil (collect_issues ds))) [
    | inr f ↦ cc (rw (e, f) at h)
    | inl f ↦
        let u = all_new-Unique [] ds e in
        (
          u,
          (collect_issues-Intact ds u).0 (nil f),
          let q : arrange (groups ds) ≡ g = cc (rw (e, f) at h) in sym q,
        )
  ]
]
  where
    nil : is_nil (collect_issues ds) ≡ true → collect_issues ds ≡ []
    nil f = ground arith

module _ (fits : Element → Element → Bool) where
  insert_by→In :
      (a x : Element) (xs : List Element) → In a (insert_by fits x xs) → (a ≡ x) ⊎ In a xs
  unfolding insert_by
  insert_by→In a x [] m = m
  insert_by→In a x (y ∷ ys) m = elim (Bool-cases (fits x y)) [
    | inl e ↦ rw e at m
    | inr e ↦ elim (rw e at m) [
      | inl q ↦ inr (inl q)
      | inr n ↦ elim (insert_by→In a x ys n) [ inl q ↦ inl q | inr r ↦ inr (inr r) ]
    ]
  ]

  In→insert_by :
      (a x : Element) (xs : List Element) → (a ≡ x) ⊎ In a xs → In a (insert_by fits x xs)
  unfolding insert_by
  In→insert_by a x [] m = m
  In→insert_by a x (y ∷ ys) (inl q) = elim (Bool-cases (fits x y)) [
    | inl e ↦ rw e (inl q)
    | inr e ↦ rw e (inr (In→insert_by a x ys (inl q)))
  ]
  In→insert_by a x (y ∷ ys) (inr (inl q)) = elim (Bool-cases (fits x y)) [
    | inl e ↦ rw e (inr (inl q))
    | inr e ↦ rw e (inl q)
  ]
  In→insert_by a x (y ∷ ys) (inr (inr m)) = elim (Bool-cases (fits x y)) [
    | inl e ↦ rw e (inr (inr m))
    | inr e ↦ rw e (inr (In→insert_by a x ys (inr m)))
  ]

  sort_by→In : (a : Element) (xs : List Element) → In a (sort_by fits xs) → In a xs
  unfolding sort_by
  sort_by→In a [] m = m
  sort_by→In a (x ∷ xs) m = elim (insert_by→In a x (sort_by fits xs) m) [
    | inl q ↦ inl q
    | inr n ↦ inr (sort_by→In a xs n)
  ]

  In→sort_by : (a : Element) (xs : List Element) → In a xs → In a (sort_by fits xs)
  unfolding sort_by
  In→sort_by a [] m = m
  In→sort_by a (x ∷ xs) (inl q) = In→insert_by a x (sort_by fits xs) (inl q)
  In→sort_by a (x ∷ xs) (inr m) = In→insert_by a x (sort_by fits xs) (inr (In→sort_by a xs m))

  pub In-sort_by : (a : Element) (xs : List Element) → In a (sort_by fits xs) ↔ In a xs
  In-sort_by a xs = (sort_by→In a xs, In→sort_by a xs)

-- One more draft keeps what the sections hold.
push-keeps :
    (d : Draft) (g : Change) (e : Element)
    → (In e g.create → In e (push d g).create)
      × (In e g.modify → In e (push d g).modify)
      × (In e g.delete → In e (push d g).delete)
unfolding push
push-keeps (deletion b) g e = (λ m. m, λ m. m, λ m. inr m)
push-keeps (edit none v c) g e = (λ m. inr m, λ m. m, λ m. m)
push-keeps (edit (some b) v c) g e = elim (Bool-cases (element_unchanged b v)) [
  | inl q ↦ rw q (λ m. m, λ m. m, λ m. m)
  | inr q ↦ rw q (λ m. m, λ m. inr m, λ m. m)
]

-- It adds at most itself, to one section.
push-adds :
    (d : Draft) (g : Change) (e : Element)
    → (In e (push d g).create → ((c : Option Center) × (edit none e c ≡ d)) ⊎ In e g.create)
      × (In e (push d g).modify
          → ((b : Element) × (c : Option Center) × (edit (some b) e c ≡ d)
              × (element_unchanged b e ≡ false))
            ⊎ In e g.modify)
      × (In e (push d g).delete → (deletion e ≡ d) ⊎ In e g.delete)
unfolding push
push-adds (deletion b) g e =
    (λ m. inr m, λ m. inr m, elim [ inl q ↦ inl (ap deletion q) | inr m ↦ inr m ])
push-adds (edit none v c) g e =
    (elim [ inl q ↦ inl (c, ap (λ x. edit none x c) q) | inr m ↦ inr m ], λ m. inr m, λ m. inr m)
push-adds (edit (some b) v c) g e = elim (Bool-cases (element_unchanged b v)) [
  | inl q ↦ rw q (λ m. inr m, λ m. inr m, λ m. inr m)
  | inr q ↦ rw q (
    λ m. inr m,
    elim [ inl r ↦ inl (b, c, ap (λ x. edit (some b) x c) r, rw r q) | inr m ↦ inr m ],
    λ m. inr m,
  )
]

module _ (e : Element) where
  create→In :
      (ds : List Draft) → In e (groups ds).create → (c : Option Center) × In (edit none e c) ds
  unfolding groups
  create→In [] m = absurd m
  create→In (d ∷ ds) m = elim ((push-adds d (groups ds) e).0 m) [
    | inl (c, q) ↦ (c, inl q)
    | inr n ↦ let (c, r) = create→In ds n in (c, inr r)
  ]

  In→create :
      (ds : List Draft) (c : Option Center) → In (edit none e c) ds → In e (groups ds).create
  unfolding groups push
  In→create [] c m = absurd m
  In→create (d ∷ ds) c (inl q) = subst (λ x. In e (push x (groups ds)).create) q (inl refl)
  In→create (d ∷ ds) c (inr m) = (push-keeps d (groups ds) e).0 (In→create ds c m)

  delete→In : (ds : List Draft) → In e (groups ds).delete → In (deletion e) ds
  unfolding groups
  delete→In [] m = absurd m
  delete→In (d ∷ ds) m = elim ((push-adds d (groups ds) e).2 m) [
    | inl q ↦ inl q
    | inr n ↦ inr (delete→In ds n)
  ]

  In→delete : (ds : List Draft) → In (deletion e) ds → In e (groups ds).delete
  unfolding groups push
  In→delete [] m = absurd m
  In→delete (d ∷ ds) (inl q) = subst (λ x. In e (push x (groups ds)).delete) q (inl refl)
  In→delete (d ∷ ds) (inr m) = (push-keeps d (groups ds) e).2 (In→delete ds m)

  modify→In :
      (ds : List Draft)
      → In e (groups ds).modify
      → (b : Element) × (c : Option Center) × In (edit (some b) e c) ds
        × (element_unchanged b e ≡ false)
  unfolding groups
  modify→In [] m = absurd m
  modify→In (d ∷ ds) m = elim ((push-adds d (groups ds) e).1 m) [
    | inl (b, c, q, u) ↦ (b, c, inl q, u)
    | inr n ↦ let (b, c, r, u) = modify→In ds n in (b, c, inr r, u)
  ]

  In→modify :
      (ds : List Draft) (b : Element) (c : Option Center)
      → In (edit (some b) e c) ds
      → element_unchanged b e ≡ false
      → In e (groups ds).modify
  unfolding groups push
  In→modify [] b c m u = absurd m
  In→modify (d ∷ ds) b c (inl q) u =
      subst (λ x. In e (push x (groups ds)).modify) q (rw u (inl refl))
  In→modify (d ∷ ds) b c (inr m) u = (push-keeps d (groups ds) e).1 (In→modify ds b c m u)

-- An export creates exactly the new objects, changes exactly the edited objects that
-- `elementUnchanged` does not take for their base, and deletes exactly the objects marked for it.
pub osc_of-sections :
    (ds : List Draft) {g : Change}
    → osc_of ds ≡ ok g
    → (e : Element)
    → (In e g.create ↔ ((c : Option Center) × In (edit none e c) ds))
      × (In e g.modify ↔ (
          (b : Element) × (c : Option Center) × In (edit (some b) e c) ds
          × (element_unchanged b e ≡ false)))
      × (In e g.delete ↔ In (deletion e) ds)
unfolding arrange
osc_of-sections ds h e =
    let q = (osc_of-ok ds h).2 in
    rw q (
      (
        λ m. create→In e ds ((In-sort_by rising e _).0 m),
        λ (c, m). (In-sort_by rising e _).1 (In→create e ds c m),
      ),
      (modify→In e ds, λ (b, c, m, u). In→modify e ds b c m u),
      (
        λ m. delete→In e ds ((In-sort_by falling e _).0 m),
        λ m. (In-sort_by falling e _).1 (In→delete e ds m),
      ),
    )
