-- ===== src/OsmEditor/References/Resolve.antt =====
-- When `collectIssues` reports nothing: a description of intact references that does not mention
-- its loops.
use osmmini.Base.{
  ◌≡◌, ◌↔◌, ◌⊎◌, inl, inr, refl, sym, ap, subst, Bool, true, false, ◌&&◌, ◌||◌, Option, none, some,
  List, [], ◌∷◌, any, arith, In, Bool-cases, Option-cases, any-In, In-of_any, In-map, In-of_map,
  &&-eq-true,
}
use osmmini.Base.Int.{ℤ, eqb_ℤ, eqb_ℤ_iff}
use osmmini.OsmEditor.Element.{
  Kind, node, kind_eq, positive, Member, Shape, at, along, joining, Element, type,
}
use osmmini.OsmEditor.Draft.{Center, Draft, edit, described}
use osmmini.OsmEditor.References.{
  subject, deleted, Key, key_eq, key, known, in_reach, exists_in, Issue, references, unless,
  uses_node, uses_member,
}

pub kind_eq_iff : (k l : Kind) → (kind_eq k l ≡ true) ↔ (k ≡ l)
kind_eq_iff k l = ground arith

pub key_eq_iff : (a b : Key) → (key_eq a b ≡ true) ↔ (a ≡ b)
key_eq_iff (k, i) (l, j) = (
  λ h. let (p, q) = &&-eq-true _ _ h in λ t. ((kind_eq_iff k l).0 p t, (eqb_ℤ_iff i j).0 q t),
  λ e.
      let p : k ≡ l = ap (λ (x : Key). x.0) e in
      let q : i ≡ j = ap (λ (x : Key). x.1) e in
      rw ((kind_eq_iff k l).1 p, (eqb_ℤ_iff i j).1 q) refl,
)

abbrev pub has_key : Key → List Draft → Bool
has_key k ds = any (λ d. key_eq (key (subject d)) k) ds

-- No object is drafted twice.
abbrev pub Unique : List Draft → Type 0
Unique [] = Unit
Unique (d ∷ ds) = (has_key (key (subject d)) ds ≡ false) × Unique ds

-- A draft of the batch, not a deletion, has this key.
abbrev pub Live : List Draft → Key → Type 0
Live ds k = (d : Draft) × In d ds × (deleted d ≡ false) × (key (subject d) ≡ k)

-- The object is drafted and stays, or is not touched and has an ID of the server.
abbrev pub Resolves : List Draft → Key → Type 0
Resolves ds k = Live ds k ⊎ ((positive k.1 ≡ true) × (has_key k ds ≡ false))

-- Some draft that stays refers to this node.
abbrev pub Attached : List Draft → ℤ → Type 0
Attached ds i =
    (b : Option Element) × (v : Element) × (c : Option Center) × In (edit b v c) ds
    × In (node, i) (references v.shape)

pub record Intact (ds : List Draft) : Type 0 where
  pub resolved :
      (b : Option Element) (v : Element) (c : Option Center) (k : Key)
      → In (edit b v c) ds
      → In k (references v.shape)
      → Resolves ds k
  pub attached :
      (v : Element) (c : Option Center)
      → In (edit none v c) ds
      → type v ≡ node
      → described v.tags ≡ false
      → Attached ds v.id

known-none : (k : Key) (ds : List Draft) → known k ds ≡ none → has_key k ds ≡ false
known-none k [] h = refl
known-none k (d ∷ ds) h = ground (arith, known-none k ds)

known-has_key : (k : Key) (ds : List Draft) → has_key k ds ≡ false → known k ds ≡ none
known-has_key k [] h = refl
known-has_key k (d ∷ ds) h = ground (arith, known-has_key k ds)

known-some :
    (k : Key) (ds : List Draft) {b : Bool}
    → known k ds ≡ some b
    → (d : Draft) × In d ds × (deleted d ≡ b) × (key (subject d) ≡ k)
known-some k [] h = cc
known-some k (d ∷ ds) {b} h = elim (Option-cases (known k ds)) [
  | inl e ↦ elim (Bool-cases (key_eq (key (subject d)) k)) [
    | inl q ↦ (d, inl refl, ground arith, (key_eq_iff _ k).0 q)
    | inr q ↦ absurd (ground arith)
  ]
  | inr (a, e) ↦ let (x, m, p, q) = known-some k ds e in (x, inr m, ground arith, q)
]

pub known-live :
    (ds : List Draft) (d : Draft)
    → Unique ds
    → In d ds
    → known (key (subject d)) ds ≡ some (deleted d)
known-live [] d u m = absurd m
known-live (e ∷ ds) d u (inl p) =
    subst (λ x. known (key (subject x)) (e ∷ ds) ≡ some (deleted x)) (sym p)
      (rw (known-has_key (key (subject e)) ds u.0, (key_eq_iff (key (subject e)) _).1 refl) refl)
known-live (e ∷ ds) d u (inr m) = rw (known-live ds d u.1 m) refl

-- `exists` decides whether a reference resolves.
pub exists_in-Resolves :
    (ds : List Draft) (k : Key) → Unique ds → (exists_in ds k ≡ true) ↔ Resolves ds k
unfolding exists_in
exists_in-Resolves ds k u = (to, from)
  where
    to : in_reach (known k ds) k.1 ≡ true → Resolves ds k
    to h = elim (Option-cases (known k ds)) [
      | inl e ↦ inr (rw e at h, known-none k ds e)
      | inr (gone, e) ↦ let (d, m, p, q) = known-some k ds e in inl (d, m, ground arith, q)
    ]

    from : Resolves ds k → in_reach (known k ds) k.1 ≡ true
    from (inl (d, m, p, q)) = rw (← q, known-live ds d u m, p) refl
    from (inr (p, n)) = rw (known-has_key k ds n) p

pub unless-eq-nil : (b : Bool) (i : Issue) → (unless b i ≡ []) ↔ (b ≡ true)
unfolding unless
unless-eq-nil true i = (λ _. refl, λ _. refl)
unless-eq-nil false i = (λ h. cc, λ h. cc)

along-In :
    (nodes : List ℤ) (k : Kind) (i : ℤ)
    → ((kind_eq k node && uses_node (along nodes) i) ≡ true) ↔ In (k, i) (references (along nodes))
along-In nodes k i = (to, from)
  where
    to : (kind_eq k node && uses_node (along nodes) i) ≡ true → In (k, i) (references (along nodes))
    to h =
        let (p, q) = &&-eq-true _ _ h in
        let (j, m, e) = In-of_any (λ j. eqb_ℤ j i) nodes q in
        rw ((kind_eq_iff k node).0 p, ← (eqb_ℤ_iff j i).0 e) (In-map (λ x. (node, x)) j nodes m)

    from :
        In (k, i) (references (along nodes)) → (kind_eq k node && uses_node (along nodes) i) ≡ true
    from m =
        let (j, n, e) = In-of_map (λ (x : ℤ). (node, x)) (k, i) nodes m in
        let p : k ≡ node = ap (λ (x : Key). x.0) e in
        let q : i ≡ j = ap (λ (x : Key). x.1) e in
        rw ((kind_eq_iff k node).1 p)
          (any-In (λ x. eqb_ℤ x i) j nodes n ((eqb_ℤ_iff j i).1 (sym q)))

joining-In :
    (members : List Member) (k : Key)
    → (uses_member (joining members) k ≡ true) ↔ In k (references (joining members))
joining-In members k = (to, from)
  where
    same : Member → Bool
    same m = key_eq (m.type, m.ref) k

    to : uses_member (joining members) k ≡ true → In k (references (joining members))
    to h =
        let (m, n, e) = In-of_any same members h in
        rw (← (key_eq_iff (m.type, m.ref) k).0 e) (In-map (λ x. (x.type, x.ref)) m members n)

    from : In k (references (joining members)) → uses_member (joining members) k ≡ true
    from h =
        let (m, n, e) = In-of_map (λ (x : Member). (x.type, x.ref)) k members h in
        any-In same m members n ((key_eq_iff (m.type, m.ref) k).1 (sym e))

-- What the two tests on a shape look for.
pub uses-In :
    (s : Shape) (k : Kind) (i : ℤ)
    → ((kind_eq k node && uses_node s i || uses_member s (k, i)) ≡ true) ↔ In (k, i) (references s)
uses-In (at lon lat) k i = (λ h. ground arith, λ m. absurd m)
uses-In (along nodes) k i =
    (λ h. (along-In nodes k i).0 (ground arith), λ m. ground (arith, (along-In nodes k i).1 m))
uses-In (joining members) k i = (
  λ h. (joining-In members (k, i)).0 (ground arith),
  λ m. ground (arith, (joining-In members (k, i)).1 m),
)
