-- ===== src/OsmEditor/Export/Order.antt =====
-- The order of the sections: what an object of the file refers to is created before it and deleted
-- after it.
use osmmini.Base.{
  suc, ◌≤◌, ◌≡◌, ◌≢◌, inl, inr, refl, sym, ap, ◌∙◌, subst, Bool, true, false, Option, none, some,
  List, [], ◌∷◌, ◌++◌, arith, In, In-append_right, All, All-In, Bool-cases, ok, In-of_map,
}
use osmmini.Base.Int.{ℤ}
use osmmini.OsmEditor.Element.{
  Kind, node, way, relation, rank, positive, Shape, at, along, joining, kind, Element, type,
}
use osmmini.OsmEditor.Element.Valid.{IsIdentified}
use osmmini.OsmEditor.Draft.{Center, Draft, deletion, edit}
use osmmini.OsmEditor.Draft.Valid.{IsDraft}
use osmmini.OsmEditor.References.{subject, deleted, Key, key, references}
use osmmini.OsmEditor.Export.{Change, insert_by, sort_by, rising, falling, arrange, groups, osc_of}
use osmmini.OsmEditor.Export.Content.{osc_of-ok, osc_of-sections}

-- Each element fits before all that follow it.
abbrev Ordered : (Element → Element → Bool) → List Element → Type 0
Ordered fits [] = Unit
Ordered fits (x ∷ xs) = All (λ y. fits x y ≡ true) xs × Ordered fits xs

module _ (fits : Element → Element → Bool)
    (total : (a b : Element) → fits a b ≡ false → fits b a ≡ true)
    (trans : (a b c : Element) → fits a b ≡ true → fits b c ≡ true → fits a c ≡ true) where
  All-weaken :
      (x y : Element) (ys : List Element)
      → fits x y ≡ true
      → All (λ z. fits y z ≡ true) ys
      → All (λ z. fits x z ≡ true) ys
  All-weaken x y [] e h = tt
  All-weaken x y (z ∷ zs) e h = (trans x y z e h.0, All-weaken x y zs e h.1)

  All-insert_by :
      (a x : Element) (xs : List Element)
      → fits a x ≡ true
      → All (λ z. fits a z ≡ true) xs
      → All (λ z. fits a z ≡ true) (insert_by fits x xs)
  unfolding insert_by
  All-insert_by a x [] e h = (e, tt)
  All-insert_by a x (y ∷ ys) e h = elim (Bool-cases (fits x y)) [
    | inl q ↦ rw q (e, h)
    | inr q ↦ rw q (h.0, All-insert_by a x ys e h.1)
  ]

  insert_by-Ordered :
      (x : Element) (xs : List Element) → Ordered fits xs → Ordered fits (insert_by fits x xs)
  unfolding insert_by
  insert_by-Ordered x [] h = (tt, tt)
  insert_by-Ordered x (y ∷ ys) h = elim (Bool-cases (fits x y)) [
    | inl q ↦ rw q ((q, All-weaken x y ys q h.0), h)
    | inr q ↦ rw q (All-insert_by y x ys (total x y q) h.0, insert_by-Ordered x ys h.1)
  ]

  sort_by-Ordered : (xs : List Element) → Ordered fits (sort_by fits xs)
  unfolding sort_by
  sort_by-Ordered [] = tt
  sort_by-Ordered (x ∷ xs) = insert_by-Ordered x (sort_by fits xs) (sort_by-Ordered xs)

-- What does not fit after an element stands before it.
stands_before :
    (fits : Element → Element → Bool) (xs ys : List Element) (e v : Element)
    → Ordered fits (xs ++ e ∷ ys)
    → In v (xs ++ e ∷ ys)
    → fits e v ≡ false
    → fits e e ≡ true
    → In v xs
stands_before fits [] ys e v h (inl q) f r = cc (ap (fits e) q)
stands_before fits [] ys e v h (inr m) f r = cc (All-In (λ z. fits e z ≡ true) v ys h.0 m)
stands_before fits (x ∷ xs) ys e v h (inl q) f r = inl q
stands_before fits (x ∷ xs) ys e v h (inr m) f r = inr (stands_before fits xs ys e v h.1 m f r)

-- What an element does not fit before stands after it.
stands_after :
    (fits : Element → Element → Bool) (xs ys : List Element) (e v : Element)
    → Ordered fits (xs ++ e ∷ ys)
    → In v (xs ++ e ∷ ys)
    → fits v e ≡ false
    → fits e e ≡ true
    → In v ys
stands_after fits [] ys e v h (inl q) f r = cc (ap (λ x. fits x e) q)
stands_after fits [] ys e v h (inr m) f r = m
stands_after fits (x ∷ xs) ys e v h (inl q) f r =
    let t =
      All-In (λ z. fits x z ≡ true) e (xs ++ e ∷ ys) h.0
        (In-append_right e xs (e ∷ ys) (inl refl)) in
    cc (ap (λ x. fits x e) q)
stands_after fits (x ∷ xs) ys e v h (inr m) f r = stands_after fits xs ys e v h.1 m f r

below_relation : (j : Kind) → j ≢ relation → suc (rank j) ≤ 2
unfolding rank
below_relation node d = omega arith
below_relation way d = omega arith
below_relation relation d = absurd (d refl)

-- Ways refer to nodes, and relations to anything.
reference_rank :
    (s : Shape) (k : Key) → In k (references s) → k.0 ≢ relation → suc (rank k.0) ≤ rank (kind s)
unfolding rank
reference_rank (at a b) k m d = absurd m
reference_rank (along is) k m d =
    let (i, r, q) = In-of_map (λ (i : ℤ). (node, i)) k is m in
    let t : k.0 ≡ node = ap (λ (x : Key). x.0) q in rw t (omega arith)
reference_rank (joining ms) k m d = below_relation k.0 d

-- A draft that stays under a placeholder is of a new object.
live_new :
    (d : Draft) (k : Key)
    → IsDraft d
    → deleted d ≡ false
    → key (subject d) ≡ k
    → positive k.1 ≡ false
    → (c : Option Center) × (d ≡ edit none (subject d) c)
live_new (deletion b) k h g q p = cc
live_new (edit none v c) k h g q p = (c, refl)
live_new (edit (some b) v c) k h g q p = numbered v.version h.1.identified
  where
    i : v.id ≡ k.1
    i = ap (λ (x : Key). x.1) q

    numbered :
        (n : Option ℤ)
        → IsIdentified false v.id n
        → (c' : Option Center) × (edit (some b) v c ≡ edit none v c')
    numbered none t = absurd t
    numbered (some n) t = cc (t.0.1, ap positive i)

rising-total : (a b : Element) → rising a b ≡ false → rising b a ≡ true
rising-total a b h = ground arith

rising_trans : (a b c : Element) → rising a b ≡ true → rising b c ≡ true → rising a c ≡ true
rising_trans a b c p q = ground arith

falling-total : (a b : Element) → falling a b ≡ false → falling b a ≡ true
falling-total a b h = ground arith

falling_trans : (a b c : Element) → falling a b ≡ true → falling b c ≡ true → falling a c ≡ true
falling_trans a b c p q = ground arith

rank_of_key : (v : Element) (k : Key) → key v ≡ k → rank (type v) ≡ rank k.0
rank_of_key v k q = ap (λ (x : Key). rank x.0) q

module _ (ds : List Draft) {g : Change} (h : osc_of ds ≡ ok g) where
  created : g.create ≡ sort_by rising (groups ds).create
  unfolding arrange
  created = ap (λ (c : Change). c.create) (osc_of-ok ds h).2

  deletions : g.delete ≡ sort_by falling (groups ds).delete
  unfolding arrange
  deletions = ap (λ (c : Change). c.delete) (osc_of-ok ds h).2

  -- In an export of valid drafts, a node or way that a created object refers to by a placeholder
  -- is created before that object.
  pub create-references :
      All IsDraft ds
      → (xs ys : List Element) (e : Element) (k : Key) → g.create ≡ xs ++ e ∷ ys
      → In k (references e.shape)
      → positive k.1 ≡ false
      → k.0 ≢ relation
      → (v : Element) × In v xs × (key v ≡ k)
  create-references valid xs ys e k q m p d =
      let member : In e g.create = rw q (In-append_right e xs (e ∷ ys) (inl refl)) in
      let (c, n) = (osc_of-sections ds h e).0.0 member in
      elim ((osc_of-ok ds h).1.resolved none e c k n m) [
        | inr (r, _) ↦ cc (r)
        | inl (f, i, l, t) ↦
            let (c', w) = live_new f k (All-In IsDraft f ds valid i) l t p in
            let new : In (subject f) g.create =
              (osc_of-sections ds h (subject f)).0.1 (c', subst (λ x. In x ds) w i) in
            let low = reference_rank e.shape k m d in
            let same = rank_of_key (subject f) k t in
            let ordered : Ordered rising (xs ++ e ∷ ys) =
              rw (sym q ∙ created)
                (sort_by-Ordered rising rising-total rising_trans (groups ds).create) in
            (
              subject f,
              stands_before rising xs ys e (subject f) ordered (rw q at new) (ground arith)
                  (ground arith),
              t,
            )
      ]

  -- In any export, a deleted node or way that a deleted object referred to is deleted after it.
  pub delete-references :
      (xs ys : List Element) (e v : Element)
      → g.delete ≡ xs ++ e ∷ ys
      → In (key v) (references e.shape)
      → type v ≢ relation
      → In v g.delete
      → In v ys
  delete-references xs ys e v q m d n =
      let low = reference_rank e.shape (key v) m d in
      let ordered : Ordered falling (xs ++ e ∷ ys) =
        rw (sym q ∙ deletions)
          (sort_by-Ordered falling falling-total falling_trans (groups ds).delete) in
      stands_after falling xs ys e v ordered (rw q at n) (ground arith) (ground arith)
