-- ===== src/OsmEditor/Changes/Members.antt =====
-- What `memberChanges` sees. It compares a member's role with the first member of the base that
-- has the same type and ID.
use osmmini.Base.{
  ◌≡◌, ◌↔◌, refl, sym, ◌∙◌, Bool, true, false, some, List, [], ◌∷◌, any, arith, In, inl, inr,
  Bool-cases, flat_map, flat_map-eq-nil, flat_map-eq-nil_of, append-eq-nil, text_eq, text_eq_iff,
  text_eq_refl, &&-eq-true, any-In,
}
use osmmini.Base.Int.{eqb_ℤ_iff, eqb_ℤ_refl}
use osmmini.OsmEditor.Element.{Kind, kind_eq, Member}
use osmmini.OsmEditor.Changes.{
  same_member, find_member, MemberChange, removed, added, absent, compare_role, same_members,
  or_reordered, member_changes,
}

-- No two members have the same type and ID.
abbrev pub Distinct : List Member → Type 0
Distinct [] = Unit
Distinct (m ∷ ms) = (any (λ n. same_member n m) ms ≡ false) × Distinct ms

kind_eq_iff : (k l : Kind) → (kind_eq k l ≡ true) ↔ (k ≡ l)
kind_eq_iff k l = ground arith

kind_eq_refl : (k : Kind) → kind_eq k k ≡ true
kind_eq_refl k = ground arith

same_member_refl : (m : Member) → same_member m m ≡ true
same_member_refl m = rw (kind_eq_refl m.type, eqb_ℤ_refl m.ref) refl

same_members_refl : (ms : List Member) → same_members ms ms ≡ true
same_members_refl [] = refl
same_members_refl (m ∷ ms) = rw (same_member_refl m, same_members_refl ms) refl

-- A member that agrees in type, ID and role is the same.
Member-ext : (m n : Member) → same_member m n ≡ true → text_eq m.role n.role ≡ true → m ≡ n
Member-ext m n h r =
    let (p, q) = &&-eq-true (kind_eq m.type n.type) _ h in
    let t = (kind_eq_iff m.type n.type).0 p in
    let i = (eqb_ℤ_iff m.ref n.ref).0 q in
    let s = (text_eq_iff m.role n.role).0 r in λ j. record { type = t j; ref = i j; role = s j }

abbrev RolesKept : List Member → List Member → Type 0
RolesKept before after = (m : Member) → In m after → compare_role (find_member m before) m ≡ []

same_member_iff : (a b : Member) → (same_member a b ≡ true) ↔ ((a.type ≡ b.type) × (a.ref ≡ b.ref))
same_member_iff a b = (
  λ h.
      let (p, q) = &&-eq-true (kind_eq a.type b.type) _ h in
      ((kind_eq_iff a.type b.type).0 p, (eqb_ℤ_iff a.ref b.ref).0 q),
  λ e. rw ((kind_eq_iff a.type b.type).1 e.0, (eqb_ℤ_iff a.ref b.ref).1 e.1) refl,
)

-- Two members that both agree with a third agree with one another.
same_member_join :
    (a b c : Member) → same_member a b ≡ true → same_member a c ≡ true → same_member c b ≡ true
same_member_join a b c p q =
    let (t, i) = (same_member_iff a b).0 p in
    let (u, j) = (same_member_iff a c).0 q in (same_member_iff c b).1 (sym u ∙ t, sym j ∙ i)

role_of-compare : (m n : Member) → compare_role (some m) n ≡ [] → text_eq m.role n.role ≡ true
role_of-compare m n h = ground arith

members-equal :
    (before after : List Member)
    → Distinct after
    → same_members before after ≡ true
    → RolesKept before after
    → before ≡ after
members-equal [] [] d s r = refl
members-equal [] (n ∷ ns) d s r = cc
members-equal (m ∷ ms) [] d s r = cc
members-equal (m ∷ ms) (n ∷ ns) d s r =
    let (p, q) = &&-eq-true (same_member m n) _ s in
    let head : m ≡ n = Member-ext m n p (role_of-compare m n (rw p at (r n (inl refl)))) in
    let tail : ms ≡ ns = members-equal ms ns d.1 q (λ x i. later p x i (r x (inr i))) in
    λ j. head j ∷ tail j
  where
    apart : same_member m n ≡ true → (x : Member) → In x ns → same_member m x ≡ false
    apart p x i = elim (Bool-cases (same_member m x)) [
      | inl e ↦
          let t = any-In (λ y. same_member y n) x ns i (same_member_join m n x p e) in cc (d.0)
      | inr e ↦ e
    ]

    later :
        same_member m n ≡ true
        → (x : Member) → In x ns
        → compare_role (find_member x (m ∷ ms)) x ≡ []
        → compare_role (find_member x ms) x ≡ []
    later p x i h = rw (apart p x i) at h

RolesKept-self : (ms : List Member) → Distinct ms → RolesKept ms ms
RolesKept-self [] d x i = absurd i
RolesKept-self (m ∷ ms) d x (inl e) = rw (e, same_member_refl m, text_eq_refl m.role) refl
RolesKept-self (m ∷ ms) d x (inr i) = elim (Bool-cases (same_member m x)) [
  | inl e ↦
      let t =
        any-In (λ n. same_member n m) x ms i (same_member_join m m x (same_member_refl m) e) in
      cc (d.0)
  | inr e ↦ rw e (RolesKept-self ms d.1 x i)
]

absent-In :
    (note : Member → MemberChange) (ms : List Member) (m : Member) → In m ms → absent note ms m ≡ []
absent-In note ms m i = rw (any-In (λ n. same_member n m) m ms i (same_member_refl m)) refl

or_reordered-nil :
    (out : List MemberChange) (b : Bool) → or_reordered out b ≡ [] → (out ≡ []) × (b ≡ true)
or_reordered-nil [] true h = (refl, refl)
or_reordered-nil [] false h = cc
or_reordered-nil (c ∷ cs) b h = cc

-- Where the edited relation has no member twice, `memberChanges` reports nothing exactly when its
-- members, their roles and their order are those of the base.
pub member_changes-nil :
    (before after : List Member)
    → Distinct after
    → (member_changes before after ≡ []) ↔ (before ≡ after)
unfolding member_changes
member_changes-nil before after d = (to, from)
  where
    roles : List MemberChange
    roles = flat_map (λ m. compare_role (find_member m before) m) after

    to : member_changes before after ≡ [] → before ≡ after
    to h =
        let (p, q) = or_reordered-nil _ (same_members before after) h in
        let (x, r) = append-eq-nil (flat_map (absent removed after) before) _ p in
        let (y, z) = append-eq-nil (flat_map (absent added before) after) roles r in
        members-equal before after d q (flat_map-eq-nil _ after z)

    from : before ≡ after → member_changes before after ≡ []
    from e =
        rw
          (
            e,
            flat_map-eq-nil_of (absent removed after) after (absent-In removed after),
            flat_map-eq-nil_of (absent added after) after (absent-In added after),
            flat_map-eq-nil_of (λ m. compare_role (find_member m after) m) after
                (RolesKept-self after d),
            same_members_refl after,
          )
          refl
