-- ===== src/OsmEditor/Element/Valid.antt =====
-- What every object that `element` returns satisfies.
use osmmini.Base.{
  inl, inr, subst, Holds-eq, Ensures-any, Holds, Ensures, Ensures-eq, Ensures-of_eq, Ensures-bind,
  Ensures-traverse, leb, leb→le, codes, ◌||◌, ℕ, ◌+◌, ◌≤◌, ◌≡◌, refl, Bool, true, false, Option,
  none, some, List, [], ◌∷◌, Text, length, arith, All, Bool-cases, ok, err, traverse, ltb,
}
use osmmini.Base.Int.{ℤ, pos_part, neg_part}
use osmmini.Json.{Value, number, array, field, items}
use osmmini.Json.Numbers.{Number, whole, within, safe_bound}
use osmmini.OsmEditor.Problem.{Checked}
use osmmini.OsmEditor.Tags.{tags}
use osmmini.OsmEditor.Tags.Valid.{IsTags, tags-IsTags}
use osmmini.OsmEditor.Element.{
  Kind, node, way, relation, positive, nonzero, negative, only, integer_of, valid_id, ref_id,
  placeholder, role_allowed, Member, check_role, check_member, member, Shape, at, along, joining,
  kind, Element, position, check_position, refs, cons_both, check_nodes, nodes_of, members_of,
  shape_of, identity_from, required, identity, tags_of, element,
}

abbrev pub Safe : ℤ → Type 0
Safe i = pos_part i + neg_part i ≤ safe_bound

-- A safe integer on which the test passes.
abbrev pub Numbered : (ℤ → Bool) → ℤ → Type 0
Numbered p i = Safe i × (p i ≡ true)

abbrev pub IsMember : Member → Type 0
IsMember m = Numbered nonzero m.ref × (role_allowed m.role ≡ true)

abbrev pub IsShape : Shape → Type 0
IsShape (at lon lat) = (within 180 lon ≡ true) × (within 90 lat ≡ true)
IsShape (along is) = All (Numbered nonzero) is × (2 ≤ length is) × (length is ≤ 2000)
IsShape (joining ms) = All IsMember ms × (length ms ≤ 300)

-- A new object has a negative placeholder and no version, any other an ID and a version.
abbrev pub IsIdentified : Bool → ℤ → Option ℤ → Type 0
IsIdentified true i none = Numbered negative i
IsIdentified true i (some n) = ⊥
IsIdentified false i none = ⊥
IsIdentified false i (some n) = Numbered positive i × Numbered positive n

pub record IsElement (create : Bool) (e : Element) : Type 0 where
  pub identified : IsIdentified create e.id e.version
  pub tagged : IsTags e.tags
  pub shaped : IsShape e.shape

only-Holds : (p : ℤ → Bool) (o : Option ℤ) → Holds Safe o → Holds (Numbered p) (only p o)
only-Holds p none h = tt
only-Holds p (some i) h = elim (Bool-cases (p i)) [ inl e ↦ rw e (h, e) | inr e ↦ rw e tt ]

integer_of-Safe : (v : Option Value) → Holds Safe (integer_of v)
integer_of-Safe (some (number (whole i))) =
    elim (Bool-cases (leb (pos_part i + neg_part i) safe_bound)) [
      | inl e ↦ rw e (leb→le _ _ e)
      | inr e ↦ rw e tt
    ]
integer_of-Safe none = tt
integer_of-Safe (some (number _)) = tt
integer_of-Safe (some _) = tt

valid_id-Holds : (v : Option Value) → Holds (Numbered positive) (valid_id v)
unfolding valid_id
valid_id-Holds v = only-Holds positive _ (integer_of-Safe v)

ref_id-Holds : (v : Option Value) → Holds (Numbered nonzero) (ref_id v)
unfolding ref_id
ref_id-Holds v = only-Holds nonzero _ (integer_of-Safe v)

placeholder-Holds : (v : Option Value) → Holds (Numbered negative) (placeholder v)
unfolding placeholder
placeholder-Holds v = only-Holds negative _ (integer_of-Safe v)

check_member-IsMember :
    (k : Option Kind) (i : Option ℤ) (r : Option Text)
    → Holds (Numbered nonzero) i
    → Ensures IsMember (check_member k i r)
unfolding check_member check_role
check_member-IsMember none i r h = tt
check_member-IsMember (some k) none r h = tt
check_member-IsMember (some k) (some i) none h = tt
check_member-IsMember (some k) (some i) (some t) h = elim (Bool-cases (role_allowed t)) [
  | inl e ↦ rw e (h, e)
  | inr e ↦ rw e tt
]

pub member-IsMember : (v : Value) → Ensures IsMember (member v)
unfolding member
member-IsMember v = check_member-IsMember _ _ _ (ref_id-Holds (field (codes "ref") v))

cons_both-Holds :
    (i : Option ℤ) (is : Option (List ℤ))
    → Holds (Numbered nonzero) i
    → Holds (All (Numbered nonzero)) is
    → Holds (All (Numbered nonzero)) (cons_both i is)
cons_both-Holds none is h hs = tt
cons_both-Holds (some i) none h hs = tt
cons_both-Holds (some i) (some is) h hs = (h, hs)

refs-Holds : (vs : List Value) → Holds (All (Numbered nonzero)) (refs vs)
refs-Holds [] = tt
refs-Holds (v ∷ vs) =
    cons_both-Holds (ref_id (some v)) (refs vs) (ref_id-Holds (some v)) (refs-Holds vs)

check_position-IsShape :
    (a b : Option Number)
    → Holds (λ n. within 180 n ≡ true) a
    → Holds (λ n. within 90 n ≡ true) b
    → Ensures (λ s. IsShape s × (kind s ≡ node)) (check_position a b)
unfolding check_position
check_position-IsShape none b p q = tt
check_position-IsShape (some lon) none p q = tt
check_position-IsShape (some lon) (some lat) p q = ((p, q), refl)

pub position-Holds :
    (v : Option Value) (bound : ℕ) → Holds (λ n. within bound n ≡ true) (position v bound)
position-Holds (some (number n)) bound = elim (Bool-cases (within bound n)) [
  | inl e ↦ rw e e
  | inr e ↦ rw e tt
]
position-Holds none bound = tt
position-Holds (some _) bound = tt

check_nodes-IsShape :
    (o : Option (List ℤ))
    → Holds (All (Numbered nonzero)) o
    → Ensures (λ s. IsShape s × (kind s ≡ way)) (check_nodes o)
unfolding check_nodes
check_nodes-IsShape none h = tt
check_nodes-IsShape (some is) h = elim (Bool-cases (ltb (length is) 2 || ltb 2000 (length is))) [
  | inl e ↦ rw e tt
  | inr e ↦ rw e ((h, ground arith, ground arith), refl)
]

nodes_of-Holds : (v : Option Value) → Holds (All (Numbered nonzero)) (nodes_of v)
unfolding nodes_of
nodes_of-Holds (some (array vs)) = refs-Holds (items vs)
nodes_of-Holds none = tt
nodes_of-Holds (some _) = tt

members_of-IsShape :
    (v : Option Value) → Ensures (λ s. IsShape s × (kind s ≡ relation)) (members_of v)
unfolding members_of
members_of-IsShape (some (array vs)) = elim (Bool-cases (ltb 300 (length (items vs)))) [
  | inl e ↦ rw e tt
  | inr e ↦ rw e (
      Ensures-bind _ _ (traverse member (items vs)) _
        (Ensures-traverse IsMember member (items vs) member-IsMember)
        λ ms h. ((h.0, ground arith), refl))
]
members_of-IsShape none = tt
members_of-IsShape (some _) = tt

-- The shape fits the type that was asked for.
shape_of-IsShape :
    (k : Kind) (raw : Value) → Ensures (λ s. IsShape s × (kind s ≡ k)) (shape_of k raw)
unfolding shape_of
shape_of-IsShape node raw =
    check_position-IsShape _ _ (position-Holds (field (codes "lon") raw) 180)
      (position-Holds (field (codes "lat") raw) 90)
shape_of-IsShape way raw = check_nodes-IsShape _ (nodes_of-Holds (field (codes "nodes") raw))
shape_of-IsShape relation raw = members_of-IsShape (field (codes "members") raw)

identity_from-Ensures :
    (create : Bool) (k : Option Kind) (o : Option ℤ) (v : Checked (Option ℤ)) (b : Bool)
    → ((i : ℤ) (n : Option ℤ) → o ≡ some i → v ≡ ok n → IsIdentified create i n)
    → Ensures (λ w. IsIdentified create w.key w.release) (identity_from k o v b)
unfolding identity_from
identity_from-Ensures create none o v b f = tt
identity_from-Ensures create (some k) none v b f = tt
identity_from-Ensures create (some k) (some i) (err x) b f = tt
identity_from-Ensures create (some k) (some i) (ok n) true f = tt
identity_from-Ensures create (some k) (some i) (ok n) false f = f i n refl refl

version_of-Numbered :
    (v : Option ℤ) {n : Option ℤ}
    → Holds (Numbered positive) v
    → required v ≡ ok n
    → (m : ℤ) × (n ≡ some m) × Numbered positive m
version_of-Numbered none h e = cc
version_of-Numbered (some m) h e = (m, cc, h)

identity-IsIdentified :
    (create : Bool) (raw : Value)
    → Ensures (λ w. IsIdentified create w.key w.release) (identity create raw)
unfolding identity
identity-IsIdentified true raw = identity_from-Ensures true _ _ _ _ λ i n p q.
    let e : none ≡ n = cc in
    subst (λ m. IsIdentified true i m) e
      (Holds-eq _ _ (placeholder-Holds (field (codes "id") raw)) p)
identity-IsIdentified false raw = identity_from-Ensures false _ _ _ _ λ i n p q.
    let (m, e, v) = version_of-Numbered _ (valid_id-Holds (field (codes "version") raw)) q in
    rw e (Holds-eq _ _ (valid_id-Holds (field (codes "id") raw)) p, v)

-- Whatever the input, what `element` returns has an ID and version or a placeholder, checked tags,
-- and coordinates, references or members within the bounds.
pub element-IsElement :
    (create : Bool) (raw : Value) {e : Element} → element create raw ≡ ok e → IsElement create e
unfolding element
element-IsElement create raw h =
    Ensures-eq (IsElement create) (element create raw)
      (Ensures-bind _ _ (identity create raw) _ (identity-IsIdentified create raw) λ who p.
        Ensures-bind (λ _. Unit) _ (tags_of (field (codes "tags") raw)) _ (Ensures-any _)
          λ es _.
            Ensures-bind IsTags _ (tags es) _ (Ensures-of_eq _ (tags es) (λ t. tags-IsTags es))
              λ ts q.
                Ensures-bind _ _ (shape_of who.sort raw) _ (shape_of-IsShape who.sort raw)
                  λ s r. record { identified = p; tagged = q; shaped = r.0 })
      h
